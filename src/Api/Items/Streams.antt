-- ===== src/Api/Items/Streams.antt =====
-- internal/api/server.go: streams.
use zent_proxy.Base.{
  ℕ, suc, refl, Bool, not, ◌&&◌, ◌||◌, Option, none, some, ◌++◌, if◌then◌else◌, Text, lit,
}
use zent_proxy.Base.Int.{pos, negsuc, ℤ, between}
use zent_proxy.Model.{Stream}
use zent_proxy.Strings.Trim.{is_nil, trim_space}
use zent_proxy.Strings.Decimal.{itoa}
use zent_proxy.Api.Items.{Refusal, Kind}

pub record StreamInput : Type 0 where
  pub incoming_port : ℤ
  pub forward_host : Text
  pub forward_port : ℤ
  pub tcp_forwarding : Bool
  pub udp_forwarding : Bool
  pub certificate_id : Option ℕ
  pub enabled : Bool

unfoldable pub stream_of_input : ℕ → ℕ → ℕ → StreamInput → Stream
stream_of_input id created updated x = record {
  id = id;
  incoming_port = x.incoming_port;
  forward_host = x.forward_host;
  forward_port = x.forward_port;
  tcp_forwarding = x.tcp_forwarding;
  udp_forwarding = x.udp_forwarding;
  certificate_id = x.certificate_id;
  enabled = x.enabled;
  created_at = created;
  updated_at = updated;
}

unfoldable pub input_of_stream : Stream → StreamInput
input_of_stream a = record {
  incoming_port = a.incoming_port;
  forward_host = a.forward_host;
  forward_port = a.forward_port;
  tcp_forwarding = a.tcp_forwarding;
  udp_forwarding = a.udp_forwarding;
  certificate_id = a.certificate_id;
  enabled = a.enabled;
}

unfoldable pub stream_error : StreamInput → Option Refusal
stream_error x =
    if not (between 1 65535 x.incoming_port && between 1 65535 x.forward_port)
      || (is_nil (trim_space x.forward_host) || (not x.tcp_forwarding && not x.udp_forwarding))
    then some (record { status = 422; message = lit "invalid stream" })
    else none

-- `has_certificate`: `store.GetCertificate` gives no error
unfoldable pub stream_certificate_error : (ℕ → Bool) → Option ℕ → Option Refusal
stream_certificate_error has_certificate none = none
stream_certificate_error has_certificate (some id) =
    if has_certificate id
    then none
    else some (record { status = 422; message = lit "certificate does not exist" })

abbrev pub first_of : Option Refusal → Option Refusal → Option Refusal
first_of none rest = rest
first_of (some e) rest = some e

abbrev pub port_text : ℤ → Text
port_text (pos n) = itoa n
port_text (negsuc n) = lit "-" ++ itoa (suc n)

unfoldable pub stream : (ℕ → Bool) → Kind Stream StreamInput
unfolding stream_of_input input_of_stream
stream has_certificate = record {
  id_of = λ a. a.id;
  created_at = λ a. a.created_at;
  build = stream_of_input;
  input_of = input_of_stream;
  undated = λ a. record a { updated_at = 0 };
  check_create =
      λ x. first_of (stream_error x) (stream_certificate_error has_certificate x.certificate_id);
  check_update =
      λ x. first_of (stream_certificate_error has_certificate x.certificate_id) (stream_error x);
  not_found = lit "stream not found";
  cannot_read = lit "cannot read stream";
  cannot_create = lit "cannot create stream";
  cannot_update = lit "cannot update stream";
  cannot_delete = lit "cannot delete stream";
  deleted_but = lit "stream deleted but proxy activation failed: ";
  object_type = lit "stream";
  detail = λ a. port_text a.incoming_port;
  id_of-build = λ id c u x. refl;
  created_at-build = λ id c u x. refl;
  build-input_of = λ a u. refl;
}
