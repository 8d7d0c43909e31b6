-- ===== src/Api/Items/DeadHosts.antt =====
-- internal/api/server.go: hosts that answer 404.
use zent_proxy.Base.{ℕ, refl, Bool, Option, some, List, if◌then◌else◌, Text, lit}
use zent_proxy.Model.{DeadHost}
use zent_proxy.Strings.Split.{join}
use zent_proxy.Api.Items.{Refusal, Kind}
use zent_proxy.Api.State.{Env}
use zent_proxy.Api.Items.Streams.{first_of}
use zent_proxy.Api.Items.Redirects.{certificate_of, provider_of, has_none}

pub record DeadHostInput : Type 0 where
  pub domains : List Text
  pub certificate_id : Option ℕ
  pub trusted_proxy_provider_id : Option ℕ
  pub ssl_forced : Bool
  pub http2_support : Bool
  pub hsts_enabled : Bool
  pub hsts_subdomains : Bool
  pub advanced_config : Text
  pub enabled : Bool

unfoldable pub dead_of_input : ℕ → ℕ → ℕ → DeadHostInput → DeadHost
dead_of_input id created updated x = record {
  id = id;
  domains = x.domains;
  certificate_id = x.certificate_id;
  trusted_proxy_provider_id = x.trusted_proxy_provider_id;
  ssl_forced = x.ssl_forced;
  http2_support = x.http2_support;
  hsts_enabled = x.hsts_enabled;
  hsts_subdomains = x.hsts_subdomains;
  advanced_config = x.advanced_config;
  enabled = x.enabled;
  created_at = created;
  updated_at = updated;
}

unfoldable pub input_of_dead : DeadHost → DeadHostInput
input_of_dead a = record {
  domains = a.domains;
  certificate_id = a.certificate_id;
  trusted_proxy_provider_id = a.trusted_proxy_provider_id;
  ssl_forced = a.ssl_forced;
  http2_support = a.http2_support;
  hsts_enabled = a.hsts_enabled;
  hsts_subdomains = a.hsts_subdomains;
  advanced_config = a.advanced_config;
  enabled = a.enabled;
}

unfoldable pub dead_error : Env → DeadHostInput → Option Refusal
dead_error env x =
    if has_none x.domains
    then some (record { status = 422; message = lit "domains are required" })
    else first_of (certificate_of env x.certificate_id x.domains)
        (provider_of env x.trusted_proxy_provider_id)

unfoldable pub dead : Env → Kind DeadHost DeadHostInput
unfolding dead_of_input input_of_dead
dead env = record {
  id_of = λ a. a.id;
  created_at = λ a. a.created_at;
  build = dead_of_input;
  input_of = input_of_dead;
  undated = λ a. record a { updated_at = 0 };
  check_create = dead_error env;
  check_update = dead_error env;
  not_found = lit "404 host not found";
  cannot_read = lit "cannot read 404 host";
  cannot_create = lit "cannot create 404 host";
  cannot_update = lit "cannot update 404 host";
  cannot_delete = lit "cannot delete 404 host";
  deleted_but = lit "404 host deleted but proxy activation failed: ";
  object_type = lit "dead-host";
  detail = λ a. join b',' a.domains;
  id_of-build = λ id c u x. refl;
  created_at-build = λ id c u x. refl;
  build-input_of = λ a u. refl;
}
