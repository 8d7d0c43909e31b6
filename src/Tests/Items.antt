-- ===== src/Tests/Items.antt =====
-- A stream whose update cannot be activated.
use zent_proxy.Base.{ℕ, ◌≡◌, refl, ap, Bool, true, false, none, some, List, [], ◌∷◌, lit}
use zent_proxy.Base.Int.{pos, between}
use zent_proxy.Strings.{strings}
use zent_proxy.Model.{Stream}
use zent_proxy.Api.State.{Outcome, rejected}
use zent_proxy.Api.Items.{Items, ItemRequest, refused, item_update, items}
use zent_proxy.Api.Items.Streams.{
  StreamInput, stream, stream_of_input, stream_error, stream_certificate_error,
}
use zent_proxy.Api.Items.Rollback.{is_saved}
use zent_proxy.Api.Items.Undone.{SameButDated, item_update-rollback}

abbrev input : StreamInput
input = record {
  incoming_port = pos 5432;
  forward_host = lit "10.0.0.7";
  forward_port = pos 5432;
  tcp_forwarding = true;
  udp_forwarding = false;
  certificate_id = none;
  enabled = true;
}

abbrev certificates : ℕ → Bool
certificates id = false

abbrev refuses : ℕ → List Stream → Outcome
refuses n ss = rejected

abbrev stored : Items Stream
stored = record {
  rows = stream_of_input 1 3 3 input ∷ [];
  next_id = 2;
  live = stream_of_input 1 3 3 input ∷ [];
  activations = 1;
  audits = [];
}

abbrev move_port : ItemRequest StreamInput
move_port = record {
  path_id = some 1;
  body = some (record input { incoming_port = pos 5433 });
  now = 9;
  actor = lit "session:admin";
  fails = λ c. false;
}

move_port-refused :
    (item_update (stream certificates) refuses move_port stored).1
    ≡ refused 500 (lit "proxy activation failed: ")
unfolding strings items stream stream_of_input stream_error stream_certificate_error between
move_port-refused = refl

item_update-rollback_example :
    SameButDated
      (stream certificates)
      refuses
      (item_update (stream certificates) refuses move_port stored).0.rows
      stored.rows
unfolding stream stream_of_input
item_update-rollback_example =
    item_update-rollback (stream certificates) refuses move_port stored (refl, refl) ((λ i. i), tt)
      (ap is_saved move_port-refused)
