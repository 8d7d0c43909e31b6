-- ===== src/Model.antt =====
-- internal/model/model.go: the records that the parts of the program share. Row ids are those that
-- the database assigns, which are not negative; ports and codes may be any `int`; a time is the
-- number of nanoseconds since a fixed instant.
use zent_proxy.Base.{ℕ, Bool, Option, List, Text}
use zent_proxy.Base.Int.{ℤ}

pub record CustomLocation : Type 0 where
  pub path : Text
  pub scheme : Text
  pub forward_host : Text
  pub forward_port : ℤ
  pub forward_path : Text
  pub advanced_config : Text

pub record HostInput : Type 0 where
  pub name : Text
  pub domains : List Text
  pub scheme : Text
  pub forward_host : Text
  pub forward_port : ℤ
  pub enabled : Bool
  pub web_sockets : Bool
  pub preserve_host : Bool
  pub statistics_enabled : Bool
  pub store_query_string : Bool
  pub trusted_proxy_provider_id : Option ℕ
  pub access_list_id : Option ℕ
  pub block_common_exploits : Bool
  pub certificate_id : Option ℕ
  pub ssl_forced : Bool
  pub http2_support : Bool
  pub hsts_enabled : Bool
  pub hsts_subdomains : Bool
  pub caching_enabled : Bool
  pub trust_forwarded_proto : Bool
  pub advanced_config : Text
  pub custom_locations : List CustomLocation

pub record Host : Type 0 where
  pub id : ℕ
  pub name : Text
  pub domains : List Text
  pub scheme : Text
  pub forward_host : Text
  pub forward_port : ℤ
  pub enabled : Bool
  pub web_sockets : Bool
  pub preserve_host : Bool
  pub statistics_enabled : Bool
  pub store_query_string : Bool
  pub trusted_proxy_provider_id : Option ℕ
  pub access_list_id : Option ℕ
  pub block_common_exploits : Bool
  pub certificate_id : Option ℕ
  pub ssl_forced : Bool
  pub http2_support : Bool
  pub hsts_enabled : Bool
  pub hsts_subdomains : Bool
  pub caching_enabled : Bool
  pub trust_forwarded_proto : Bool
  pub advanced_config : Text
  pub custom_locations : List CustomLocation
  pub created_at : ℕ
  pub updated_at : ℕ

pub record ZentLoopIpList : Type 0 where
  pub name : Text
  pub entries : List Text

pub record ZentLoopRule : Type 0 where
  pub name : Text
  pub enabled : Bool
  pub match : Text
  pub value : Text
  pub action : Text
  pub host_ids : List ℕ

pub record ZentLoopConfig : Type 0 where
  pub enabled : Bool
  pub forward_unknown_hosts : Bool
  pub upstream : Text
  pub secret : Text
  pub fallback : Text
  pub ip_lists : List ZentLoopIpList
  pub rules : List ZentLoopRule

pub record TrustedProxyProvider : Type 0 where
  pub id : ℕ
  pub slug : Text
  pub name : Text
  pub kind : Text
  pub header : Text
  pub auto_update : Bool
  pub source_ipv4 : Text
  pub source_ipv6 : Text
  pub cidrs : List Text
  pub last_checked : Option ℕ
  pub next_check : Option ℕ
  pub last_changed : Option ℕ
  pub last_error : Text

pub record TrustedProxyProviderInput : Type 0 where
  pub name : Text
  pub header : Text
  pub cidrs : List Text

pub record AccessRule : Type 0 where
  pub address : Text
  pub directive : Text

pub record AccessList : Type 0 where
  pub id : ℕ
  pub name : Text
  pub satisfy_any : Bool
  pub pass_auth : Bool
  pub auth_enabled : Bool
  pub rules : List AccessRule
  pub auth_file : Text
  pub created_at : ℕ
  pub updated_at : ℕ

pub record Certificate : Type 0 where
  pub id : ℕ
  pub name : Text
  pub description : Text
  pub provider : Text
  pub domains : List Text
  pub challenge : Text
  pub email : Text
  pub dns_provider : Text
  pub auto_renew : Bool
  pub cert_path : Text
  pub key_path : Text
  pub expires_at : Option ℕ
  pub last_renewed : Option ℕ
  pub last_error : Text
  pub created_at : ℕ
  pub updated_at : ℕ

pub record RedirectHost : Type 0 where
  pub id : ℕ
  pub domains : List Text
  pub forward_http_code : ℤ
  pub forward_scheme : Text
  pub forward_domain_name : Text
  pub preserve_path : Bool
  pub certificate_id : Option ℕ
  pub trusted_proxy_provider_id : Option ℕ
  pub ssl_forced : Bool
  pub http2_support : Bool
  pub hsts_enabled : Bool
  pub hsts_subdomains : Bool
  pub block_exploits : Bool
  pub advanced_config : Text
  pub enabled : Bool
  pub created_at : ℕ
  pub updated_at : ℕ

pub record DeadHost : Type 0 where
  pub id : ℕ
  pub domains : List Text
  pub certificate_id : Option ℕ
  pub trusted_proxy_provider_id : Option ℕ
  pub ssl_forced : Bool
  pub http2_support : Bool
  pub hsts_enabled : Bool
  pub hsts_subdomains : Bool
  pub advanced_config : Text
  pub enabled : Bool
  pub created_at : ℕ
  pub updated_at : ℕ

pub record Stream : Type 0 where
  pub id : ℕ
  pub incoming_port : ℤ
  pub forward_host : Text
  pub forward_port : ℤ
  pub tcp_forwarding : Bool
  pub udp_forwarding : Bool
  pub certificate_id : Option ℕ
  pub enabled : Bool
  pub created_at : ℕ
  pub updated_at : ℕ
