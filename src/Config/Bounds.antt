-- ===== src/Config/Bounds.antt =====
-- internal/config/config.go: proofs on the bounds of the configuration.
use zent_proxy.Base.{
  ℕ, ◌≤◌, ◌≡◌, subst, ◌⊎◌, inl, inr, ◌&&◌, ◌||◌, Option, none, some, arith, ltb, if◌then◌else◌,
  Bool-cases, Text, lit,
}
use zent_proxy.Strings.Equality.{text_eq_iff}
use zent_proxy.Strings.Search.{contains}
use zent_proxy.Strings.Atoi.{max_int}
use zent_proxy.Config.{
  Number, Config, ConfigError, invalid_port, Env, is_negative, is_below, clamp, mega, log_bytes,
  mode_of, env_text, env_int, config_of, with_dir, with_email, load,
}

pub record IsBounded (c : Config) : Type 0 where
  pub port : (1 ≤ c.admin_port) × (c.admin_port ≤ 65535)
  pub retention : (1 ≤ c.raw_retention_days) × (c.raw_retention_days ≤ 30)
  pub log : (1048576 ≤ c.analytics_log_max_bytes) × (c.analytics_log_max_bytes ≤ max_int)
  pub mode :
      (c.analytics_ip_mode ≡ lit "full")
      ⊎ ((c.analytics_ip_mode ≡ lit "anonymized") ⊎ (c.analytics_ip_mode ≡ lit "disabled"))

abbrev Bounded : Config ⊎ ConfigError → Type 0
Bounded (inr e) = Unit
Bounded (inl c) = IsBounded c

clamp-bounds : (lo hi : ℕ) (n : Number) → lo ≤ hi → (lo ≤ clamp lo hi n) × (clamp lo hi n ≤ hi)
unfolding clamp is_below
clamp-bounds lo hi n h = ground arith

log_bytes-bounds : (n : Number) → (mega ≤ log_bytes n) × (log_bytes n ≤ max_int)
unfolding log_bytes is_negative
log_bytes-bounds n = ground arith

mode_of-cases :
    (m : Text)
    → (mode_of m ≡ lit "full") ⊎ ((mode_of m ≡ lit "anonymized") ⊎ (mode_of m ≡ lit "disabled"))
unfolding mode_of
mode_of-cases m = ground (
  arith,
  text_eq_iff m (lit "full"),
  text_eq_iff m (lit "anonymized"),
  text_eq_iff m (lit "disabled"),
)

module _ (env : Env) where
  config_of-IsBounded :
      (email dir : Text) (port : ℕ)
      → 1 ≤ port
      → port ≤ 65535
      → IsBounded (config_of env email dir port)
  unfolding config_of
  config_of-IsBounded email dir port h k = record {
    port = (h, k);
    retention = clamp-bounds 1 30 _ (omega arith);
    log = log_bytes-bounds _;
    mode = mode_of-cases _;
  }

  with_email-Bounded :
      (port : ℕ) (o : Option Text) → 1 ≤ port → port ≤ 65535 → Bounded (with_email env port o)
  with_email-Bounded port none h k = tt
  with_email-Bounded port (some email) h k = elim (Bool-cases (contains email (lit "@"))) [
    | inl e ↦ rw e (go (env.absolute (env_text env (lit "ZENTPROXY_DATA_DIR") (lit "/data"))))
    | inr e ↦ rw e tt
  ]
    where
      go : (o : Option Text) → Bounded (with_dir env port email o)
      go none = tt
      go (some dir) = config_of-IsBounded email dir port h k

  with_port-Bounded :
      (n : Number) (o : Option Text)
      → Bounded (
          if is_below n 1 || ltb 65535 n.magnitude
          then inr invalid_port
          else with_email env n.magnitude o)
  unfolding is_below
  with_port-Bounded n o =
      elim (Bool-cases
        (((n.negative && ltb 0 n.magnitude) || ltb n.magnitude 1) || ltb 65535 n.magnitude)) [
          | inl e ↦ rw e tt
          | inr e ↦ rw e (with_email-Bounded n.magnitude o (ground arith) (ground arith))
        ]

  load-Bounded : Bounded (load env)
  unfolding load
  load-Bounded = with_port-Bounded (env_int env (lit "ZENTPROXY_ADMIN_PORT") 8080) _

  -- A configuration that is loaded has a port from 1 to 65535, keeps requests from 1 to 30 days, and
  -- rotates the log at a size from 2^20 to 2^63 - 1 bytes, whatever the environment holds, with the
  -- wrap-around of the machine's numbers; the mode is one of three.
  pub load-IsBounded : (c : Config) → load env ≡ inl c → IsBounded c
  load-IsBounded c e = subst Bounded e load-Bounded
