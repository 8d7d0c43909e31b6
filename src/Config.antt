-- ===== src/Config.antt =====
-- internal/config/config.go: the configuration from the environment, with the bounds put on it.
pub mod Bounds
use zent_proxy.Base.{
  ℕ, zero, suc, ◌+◌, ◌-◌, ◌*◌, ◌/◌, ◌%◌, ◌^◌, ◌≤◌, ◌<◌, String, ◌≡◌, refl, sym, ap, ◌∙◌, subst, ◌≢◌,
  ◌↔◌, ◌⊎◌, inl, inr, Bool, true, false, not, ◌&&◌, ◌||◌, Option, none, some, List, [], ◌∷◌, ◌++◌,
  map, reverse, append-nil, append_assoc, arith, ltb, leb, ◌==◌, if◌then◌else◌, ==_iff, ==_self,
  Bool-cases, Option-cases, length, length-append, In, In-append_left, In-append_right,
  In-append_split, All, All-append, All-append_left, All-append_right, All_weaken, Text, lit,
}
use zent_proxy.Strings.Equality.{text_eq, text_eq_self, text_eq_iff, has, has_iff, Distinct}
use zent_proxy.Strings.Trim.{
  is_space, is_nil, trim_left, keep, trim_right, trim, trim_left_idem, trim_right_idem, trim_idem,
  All-trim, trim_space, trim_space_idem, lower_byte, to_lower, upper_byte, to_upper, to_lower_idem,
  trim_space-to_lower,
}
use zent_proxy.Strings.Search.{
  strip_prefix, has_prefix, trim_prefix, has_suffix, trim_suffix, member, contains_any, contains,
  equal_fold, contains_any-append, contains_any-eq-false_iff,
}
use zent_proxy.Strings.Atoi.{read_digits, max_int}

-- an `int`, whether negative, and its magnitude
pub record Number : Type 0 where
  pub negative : Bool
  pub magnitude : ℕ

pub record Config : Type 0 where
  pub data_dir : Text
  pub admin_email : Text
  pub admin_email_configured : Bool
  pub legacy_admin_user : Text
  pub admin_password : Text
  pub admin_port : ℕ
  pub raw_retention_days : ℕ
  pub analytics_log_max_bytes : ℕ
  pub analytics_ip_mode : Text
  -- the `time.Duration`, in nanoseconds, as its 64 bits
  pub provider_refresh_every : ℕ
  pub cookie_secure : Bool

pub data ConfigError : Type 0 where
  invalid_port invalid_email invalid_dir : ConfigError

-- The environment, empty where a variable is not set, and the packages that are called.
pub record Env : Type 0 where
  pub getenv : Text → Text
  -- the address that `mail.ParseAddress` gives
  pub parse_address : Text → Option Text
  -- `filepath.Abs`
  pub absolute : Text → Option Text

abbrev pub two64 : ℕ
two64 = 18446744073709551616

-- the 64 bits of an `int`
unfoldable pub bits : Number → ℕ
bits n = if n.negative then (two64 - n.magnitude % two64) % two64 else n.magnitude % two64

-- whether 64 bits are those of a negative `int`
unfoldable pub is_negative : ℕ → Bool
is_negative b = ltb max_int b

abbrev pub with_sign : Bool → Option ℕ → Option Number
with_sign negative none = none
with_sign negative (some n) =
    if leb n (if negative then suc max_int else max_int)
    then some (record { negative = negative; magnitude = n })
    else none

abbrev pub digits_of : Text → Option ℕ
digits_of s = if is_nil s then none else read_digits (some 0) s

-- `strconv.Atoi`
unfoldable pub atoi_signed : Text → Option Number
atoi_signed [] = none
atoi_signed (c ∷ s) =
    if c == b'-'
    then with_sign true (digits_of s)
    else if c == b'+'
    then with_sign false (digits_of s)
    else with_sign false (digits_of (c ∷ s))

unfoldable pub or_text : Text → Text → Text
or_text v fallback = if is_nil v then fallback else v

abbrev pub or_number : Option Number → ℕ → Number
or_number none fallback = record { negative = false; magnitude = fallback }
or_number (some n) fallback = n

-- below a bound that is positive
unfoldable pub is_below : Number → ℕ → Bool
is_below n k = (n.negative && ltb 0 n.magnitude) || ltb n.magnitude k

unfoldable pub clamp : ℕ → ℕ → Number → ℕ
clamp lo hi n = if is_below n lo then lo else if ltb hi n.magnitude then hi else n.magnitude

-- 2^20, an hour in nanoseconds
abbrev pub mega : ℕ
mega = 1048576

abbrev pub hour : ℕ
hour = 3600000000000

-- `int64(n) * 1024 * 1024`, at least 2^20
unfoldable pub log_bytes : Number → ℕ
log_bytes n = let b = (bits n * mega) % two64 in if is_negative b || ltb b mega then mega else b

-- `time.Duration(n) * time.Hour`, where `n` counts as 1 if it is below
unfoldable pub refresh_every : Number → ℕ
refresh_every n = if is_below n 1 then hour else (n.magnitude * hour) % two64

unfoldable pub mode_of : Text → Text
mode_of m =
    if text_eq m (lit "full") || (text_eq m (lit "anonymized") || text_eq m (lit "disabled"))
    then m
    else lit "full"

abbrev pub is_address : Option Text → Bool
is_address none = false
is_address (some a) = true

module _ (env : Env) where
  unfoldable pub env_text : Text → Text → Text
  env_text key fallback = or_text (trim_space (env.getenv key)) fallback

  unfoldable pub env_int : Text → ℕ → Number
  env_int key fallback =
      let v = trim_space (env.getenv key) in
      if is_nil v
      then record { negative = false; magnitude = fallback }
      else or_number (atoi_signed v) fallback

  unfoldable pub env_bool : Text → Bool → Bool
  env_bool key fallback =
      let v = trim_space (to_lower (env.getenv key)) in
      if has v (lit "1" ∷ lit "true" ∷ lit "yes" ∷ lit "on" ∷ [])
      then true
      else if has v (lit "0" ∷ lit "false" ∷ lit "no" ∷ lit "off" ∷ [])
      then false
      else fallback

  unfoldable pub env_int_fallback : Text → Text → ℕ → Number
  env_int_fallback primary legacy fallback =
      if not (is_nil (trim_space (env.getenv primary)))
      then env_int primary fallback
      else env_int legacy fallback

  unfoldable pub legacy_user : Text
  legacy_user = trim_space (env.getenv (lit "ZENTPROXY_ADMIN_USER"))

  unfoldable pub email_of_user : Text
  email_of_user =
      if is_address (env.parse_address legacy_user) && contains legacy_user (lit "@")
      then legacy_user
      else []

  -- the address, empty where none is configured
  unfoldable pub configured_email : Text
  configured_email = or_text (trim_space (env.getenv (lit "ZENTPROXY_ADMIN_EMAIL"))) email_of_user

  unfoldable pub config_of : Text → Text → ℕ → Config
  config_of email dir port = record {
    data_dir = dir;
    admin_email = to_lower (trim_space email);
    admin_email_configured = not (is_nil configured_email);
    legacy_admin_user = legacy_user;
    admin_password = env.getenv (lit "ZENTPROXY_ADMIN_PASSWORD");
    admin_port = port;
    raw_retention_days = clamp 1 30 (
        env_int_fallback (lit "ZENTPROXY_ANALYTICS_RETENTION_DAYS")
          (lit "ZENTPROXY_RAW_RETENTION_DAYS") 7);
    analytics_log_max_bytes = log_bytes (env_int (lit "ZENTPROXY_ANALYTICS_LOG_MAX_MB") 64);
    analytics_ip_mode =
        mode_of (to_lower (env_text (lit "ZENTPROXY_ANALYTICS_IP_MODE") (lit "full")));
    provider_refresh_every = refresh_every (env_int (lit "ZENTPROXY_PROVIDER_REFRESH_HOURS") 6);
    cookie_secure = env_bool (lit "ZENTPROXY_ADMIN_COOKIE_SECURE") false;
  }

  abbrev pub with_dir : ℕ → Text → Option Text → Config ⊎ ConfigError
  with_dir port email none = inr invalid_dir
  with_dir port email (some dir) = inl (config_of email dir port)

  abbrev pub with_email : ℕ → Option Text → Config ⊎ ConfigError
  with_email port none = inr invalid_email
  with_email port (some email) =
      if not (contains email (lit "@"))
      then inr invalid_email
      else with_dir port email (env.absolute (env_text (lit "ZENTPROXY_DATA_DIR") (lit "/data")))

  -- `Load`; the version and the commit are passed through
  unfoldable pub load : Config ⊎ ConfigError
  load =
      let port = env_int (lit "ZENTPROXY_ADMIN_PORT") 8080 in
      if is_below port 1 || ltb 65535 port.magnitude
      then inr invalid_port
      else with_email port.magnitude (
          env.parse_address
            (trim_space (to_lower (or_text configured_email (lit "admin@example.com")))))
