-- ===== src/Api/Items/Redirects.antt =====
-- internal/api/server.go: redirect hosts.
use zent_proxy.Base.{
  ℕ, refl, Bool, true, false, not, ◌||◌, Option, none, some, List, [], ◌∷◌, if◌then◌else◌, Text,
  lit,
}
use zent_proxy.Base.Int.{ℤ, between}
use zent_proxy.Model.{RedirectHost}
use zent_proxy.Strings.Trim.{is_nil, trim_space}
use zent_proxy.Strings.Split.{join}
use zent_proxy.Api.Items.{Refusal, Kind}
use zent_proxy.Api.State.{Env}
use zent_proxy.Api.Items.Streams.{first_of}

pub record RedirectHostInput : Type 0 where
  pub domains : List Text
  pub forward_http_code : ℤ
  pub forward_scheme : Text
  pub forward_domain_name : Text
  pub preserve_path : Bool
  pub certificate_id : Option ℕ
  pub trusted_proxy_provider_id : Option ℕ
  pub ssl_forced : Bool
  pub http2_support : Bool
  pub hsts_enabled : Bool
  pub hsts_subdomains : Bool
  pub block_exploits : Bool
  pub advanced_config : Text
  pub enabled : Bool

unfoldable pub redirect_of_input : ℕ → ℕ → ℕ → RedirectHostInput → RedirectHost
redirect_of_input id created updated x = record {
  id = id;
  domains = x.domains;
  forward_http_code = x.forward_http_code;
  forward_scheme = x.forward_scheme;
  forward_domain_name = x.forward_domain_name;
  preserve_path = x.preserve_path;
  certificate_id = x.certificate_id;
  trusted_proxy_provider_id = x.trusted_proxy_provider_id;
  ssl_forced = x.ssl_forced;
  http2_support = x.http2_support;
  hsts_enabled = x.hsts_enabled;
  hsts_subdomains = x.hsts_subdomains;
  block_exploits = x.block_exploits;
  advanced_config = x.advanced_config;
  enabled = x.enabled;
  created_at = created;
  updated_at = updated;
}

unfoldable pub input_of_redirect : RedirectHost → RedirectHostInput
input_of_redirect a = record {
  domains = a.domains;
  forward_http_code = a.forward_http_code;
  forward_scheme = a.forward_scheme;
  forward_domain_name = a.forward_domain_name;
  preserve_path = a.preserve_path;
  certificate_id = a.certificate_id;
  trusted_proxy_provider_id = a.trusted_proxy_provider_id;
  ssl_forced = a.ssl_forced;
  http2_support = a.http2_support;
  hsts_enabled = a.hsts_enabled;
  hsts_subdomains = a.hsts_subdomains;
  block_exploits = a.block_exploits;
  advanced_config = a.advanced_config;
  enabled = a.enabled;
}

abbrev pub certificate_refusal : Option Text → Option Refusal
certificate_refusal none = none
certificate_refusal (some e) = some (record { status = 422; message = e })

abbrev pub certificate_of : Env → Option ℕ → List Text → Option Refusal
certificate_of env none domains = none
certificate_of env (some id) domains = certificate_refusal (env.certificate_error id domains)

abbrev pub provider_of : Env → Option ℕ → Option Refusal
provider_of env none = none
provider_of env (some id) =
    if env.has_provider id
    then none
    else some (record { status = 422; message = lit "trusted proxy provider does not exist" })

abbrev pub has_none : List Text → Bool
has_none [] = true
has_none (d ∷ ds) = false

unfoldable pub redirect_error : Env → RedirectHostInput → Option Refusal
redirect_error env x =
    if has_none x.domains || is_nil (trim_space x.forward_domain_name)
    then some
        (record { status = 422; message = lit "domains and forward_domain_name are required" })
    else if not (between 300 399 x.forward_http_code)
    then some (record { status = 422; message = lit "forward_http_code must be a 3xx status" })
    else first_of (certificate_of env x.certificate_id x.domains)
        (provider_of env x.trusted_proxy_provider_id)

unfoldable pub redirect : Env → Kind RedirectHost RedirectHostInput
unfolding redirect_of_input input_of_redirect
redirect env = record {
  id_of = λ a. a.id;
  created_at = λ a. a.created_at;
  build = redirect_of_input;
  input_of = input_of_redirect;
  undated = λ a. record a { updated_at = 0 };
  check_create = redirect_error env;
  check_update = redirect_error env;
  not_found = lit "redirect host not found";
  cannot_read = lit "cannot read redirect host";
  cannot_create = lit "cannot create redirect host";
  cannot_update = lit "cannot update redirect host";
  cannot_delete = lit "cannot delete redirect host";
  deleted_but = lit "redirect host deleted but proxy activation failed: ";
  object_type = lit "redirect-host";
  detail = λ a. join b',' a.domains;
  id_of-build = λ id c u x. refl;
  created_at-build = λ id c u x. refl;
  build-input_of = λ a u. refl;
}
