-- ===== src/Proxy/Names.antt =====
-- internal/proxy/manager.go: the patterns of names, and the names of servers and backends.
pub mod Normal
pub mod Safe
use zent_proxy.Base.{
  ℕ, ◌+◌, ◌-◌, ◌*◌, ◌/◌, ◌^◌, Bool, true, false, not, ◌&&◌, ◌||◌, Option, none, some, [], ◌∷◌, leb,
  ◌==◌, if◌then◌else◌, Text, lit,
}
use zent_proxy.Net.{Net}
use zent_proxy.Regex.{Regex, class, seq, opt, plus, exactly, up_to, full_match}
use zent_proxy.Strings.Equality.{text_eq}
use zent_proxy.Strings.Trim.{is_nil, trim, trim_right, trim_space, to_lower}
use zent_proxy.Strings.Search.{has_prefix, contains_any}

-- [a-zA-Z]
unfoldable pub is_letter : ℕ → Bool
is_letter c = (leb b'a' c && leb c b'z') || (leb b'A' c && leb c b'Z')

-- [a-zA-Z0-9]
unfoldable pub is_alnum : ℕ → Bool
unfolding is_letter
is_alnum c = is_letter c || (leb b'0' c && leb c b'9')

-- [a-zA-Z0-9-]
unfoldable pub is_label_byte : ℕ → Bool
unfolding is_alnum
is_label_byte c = is_alnum c || c == b'-'

-- [a-zA-Z0-9_]
unfoldable pub is_word : ℕ → Bool
unfolding is_alnum
is_word c = is_alnum c || c == b'_'

-- [a-zA-Z0-9_.-]
unfoldable pub is_host_inner : ℕ → Bool
unfolding is_word
is_host_inner c = is_word c || c == b'.' || c == b'-'

unfoldable pub byte_re : ℕ → Regex
byte_re b = class (λ c. c == b)

-- [a-zA-Z0-9](?:[a-zA-Z0-9-]{0,61}[a-zA-Z0-9])?
unfoldable pub label_re : Regex
label_re = seq (class is_alnum) (opt (seq (up_to 61 (class is_label_byte)) (class is_alnum)))

-- ^(?:\*\.)?(?:LABEL\.)+[a-zA-Z]{2,63}$, where LABEL is `label_re`
unfoldable pub domain_re : Regex
domain_re = seq (opt (seq (byte_re b'*') (byte_re b'.'))) (
    seq (plus (seq label_re (byte_re b'.')))
      (seq (exactly 2 (class is_letter)) (up_to 61 (class is_letter))))

-- ^[a-zA-Z0-9_](?:[a-zA-Z0-9_.-]{0,251}[a-zA-Z0-9_])?$
unfoldable pub hostname_re : Regex
hostname_re = seq (class is_word) (opt (seq (up_to 251 (class is_host_inner)) (class is_word)))

-- the cutset "[]"
unfoldable pub is_bracket : ℕ → Bool
is_bracket c = c == b'[' || c == b']'

unfoldable pub is_slash : ℕ → Bool
is_slash c = c == b'/'

abbrev pub is_some {ℓ} : {A : Type ℓ} → Option A → Bool
is_some none = false
is_some (some a) = true

module _ (net : Net) where
  -- net.ParseIP(strings.Trim(s, "[]"))
  unfoldable pub bracketed_ip : Text → Option Text
  bracketed_ip s = net.parse_ip (trim is_bracket s)

  unfoldable pub valid_forward_host : Text → Bool
  valid_forward_host raw =
      let h = trim_space raw in
      if is_nil h then false else full_match hostname_re h || is_some (bracketed_ip h)

  unfoldable pub normalize_forward_host : Text → Text
  normalize_forward_host raw =
      let h = trim_space raw in
      let candidate = trim_right is_slash h in
      if valid_forward_host h
      then h
      else if not (text_eq candidate h) && valid_forward_host candidate
      then candidate
      else h

  -- the address that the text is, or the text
  abbrev pub or_ip : Option Text → Text → Text
  or_ip none v = v
  or_ip (some ip) v = ip

  unfoldable pub normalize_server_name : Text → Text
  normalize_server_name v = let w = to_lower (trim_space v) in or_ip (bracketed_ip w) w

  -- space, tab, \r, \n, ; { } \ /
  unfoldable pub server_name_stops : Text
  server_name_stops = 32 ∷ 9 ∷ 13 ∷ 10 ∷ b';' ∷ b'{' ∷ b'}' ∷ 92 ∷ b'/' ∷ []

  unfoldable pub valid_server_name : Text → Bool
  valid_server_name v =
      if is_nil v || contains_any v server_name_stops
      then false
      else if is_some (bracketed_ip v)
      then true
      else if has_prefix (lit "*.") v
      then full_match domain_re v
      else full_match domain_re v || full_match hostname_re v

-- Opens the names for a test.
unfoldable pub names : Unit {0}
unfolding is_letter is_alnum is_label_byte is_word is_host_inner byte_re label_re domain_re
    hostname_re is_bracket is_slash bracketed_ip valid_forward_host normalize_forward_host
    normalize_server_name server_name_stops valid_server_name
names = tt
