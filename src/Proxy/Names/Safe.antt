-- ===== src/Proxy/Names/Safe.antt =====
-- internal/proxy/manager.go: proofs on the bytes of accepted names. Names go into the configuration
-- as they are.
use zent_proxy.Base.{
  ℕ, ◌≡◌, refl, ◌⊎◌, inl, inr, Bool, true, ◌||◌, Option, none, some, [], ◌∷◌, arith, ◌==◌,
  Bool-cases, All, All_weaken, Text,
}
use zent_proxy.Net.{Net, is_ip_input}
use zent_proxy.Regex.{class, full_match}
use zent_proxy.Regex.Decides.{full_match_iff}
use zent_proxy.Regex.Alphabet.{Within, Matches-Within, Within-exactly, Within-up_to}
use zent_proxy.Strings.Trim.{trim_left, trim_right, trim, keep, trim_space}
use zent_proxy.Proxy.Names.{
  is_letter, is_alnum, is_label_byte, is_word, is_host_inner, label_re, domain_re, hostname_re,
  is_bracket, is_some, bracketed_ip, valid_forward_host, valid_server_name,
}

-- [a-zA-Z0-9_.:*-] and the brackets
unfoldable pub is_name_byte : ℕ → Bool
unfolding is_host_inner is_bracket
is_name_byte c = is_host_inner c || is_bracket c || c == b':' || c == b'*'

abbrev pub IsName : ℕ → Type 0
IsName c = is_name_byte c ≡ true

IsName-alnum : (c : ℕ) → is_alnum c ≡ true → IsName c
unfolding is_name_byte
IsName-alnum c h = ground arith

IsName-label_byte : (c : ℕ) → is_label_byte c ≡ true → IsName c
unfolding is_name_byte is_label_byte
IsName-label_byte c h = ground arith

IsName-letter : (c : ℕ) → is_letter c ≡ true → IsName c
unfolding is_name_byte
IsName-letter c h = ground arith

IsName-word : (c : ℕ) → is_word c ≡ true → IsName c
unfolding is_name_byte
IsName-word c h = ground arith

IsName-host_inner : (c : ℕ) → is_host_inner c ≡ true → IsName c
unfolding is_name_byte
IsName-host_inner c h = ground arith

IsName-ip_input : (c : ℕ) → is_ip_input c ≡ true → IsName c
unfolding is_name_byte is_ip_input
IsName-ip_input c h = ground arith

IsName-bracket : (c : ℕ) → is_bracket c ≡ true → IsName c
unfolding is_name_byte
IsName-bracket c h = ground arith

IsName-dot : (c : ℕ) → (c == b'.') ≡ true → IsName c
unfolding is_name_byte
IsName-dot c h = ground arith

IsName-star : (c : ℕ) → (c == b'*') ≡ true → IsName c
unfolding is_name_byte
IsName-star c h = ground arith

label-Within : Within IsName label_re
unfolding label_re
label-Within = (
  IsName-alnum,
  (tt, (Within-up_to IsName 61 (class is_label_byte) IsName-label_byte, IsName-alnum)),
)

domain-Within : Within IsName domain_re
unfolding domain_re zent_proxy.Proxy.Names.byte_re
domain-Within = (
  (tt, (IsName-star, IsName-dot)),
  (
    ((label-Within, IsName-dot), (label-Within, IsName-dot)),
    (
      Within-exactly IsName 2 (class is_letter) IsName-letter,
      Within-up_to IsName 61 (class is_letter) IsName-letter,
    ),
  ),
)

hostname-Within : Within IsName hostname_re
unfolding hostname_re
hostname-Within = (
  IsName-word,
  (tt, (Within-up_to IsName 251 (class is_host_inner) IsName-host_inner, IsName-word)),
)

domain-IsName : (s : Text) → full_match domain_re s ≡ true → All IsName s
domain-IsName s h =
    Matches-Within IsName domain_re s domain-Within ((full_match_iff domain_re s).0 h)

hostname-IsName : (s : Text) → full_match hostname_re s ≡ true → All IsName s
hostname-IsName s h =
    Matches-Within IsName hostname_re s hostname-Within ((full_match_iff hostname_re s).0 h)

-- What is trimmed away is of the set, so it is a name if the rest and the set are.
module _ (cut : ℕ → Bool) (P : ℕ → Type 0) (cut-P : (c : ℕ) → cut c ≡ true → P c) where
  All_of_trim_left : (s : Text) → All P (trim_left cut s) → All P s
  unfolding trim_left
  All_of_trim_left [] h = tt
  All_of_trim_left (c ∷ s) h = elim (Bool-cases (cut c)) [
    | inl e ↦ (cut-P c e, All_of_trim_left s (rw e at h))
    | inr e ↦ rw e at h
  ]

  All_of_trim_right : (s : Text) → All P (trim_right cut s) → All P s
  unfolding trim_right
  All_of_trim_right [] h = tt
  All_of_trim_right (c ∷ s) h = go (trim_right cut s) h (All_of_trim_right s)
    where
      go : (r : Text) → All P (keep cut c r) → (All P r → All P s) → All P (c ∷ s)
      go [] k f = elim (Bool-cases (cut c)) [
        | inl e ↦ (cut-P c e, f tt)
        | inr e ↦ ((rw e at k).0, f tt)
      ]
      go (d ∷ r) (p, k) f = (p, f k)

  All_of_trim : (s : Text) → All P (trim cut s) → All P s
  unfolding trim
  All_of_trim s h = All_of_trim_left s (All_of_trim_right (trim_left cut s) h)

is_some-inv : (o : Option Text) → is_some o ≡ true → (t : Text) × (o ≡ some t)
is_some-inv none h = absurd (cc)
is_some-inv (some t) h = (t, refl)

module _ (net : Net) where
  bracketed_ip-IsName : (s : Text) → is_some (bracketed_ip net s) ≡ true → All IsName s
  bracketed_ip-IsName s h =
      let (t, e) = is_some-inv (bracketed_ip net s) h in
      All_of_trim is_bracket IsName IsName-bracket s (
        All_weaken (λ c. is_ip_input c ≡ true) IsName IsName-ip_input (trim is_bracket s)
          (net.written (trim is_bracket s) t (unfold bracketed_ip in e)))

  valid_forward_host_cases :
      (raw : Text)
      → valid_forward_host net raw ≡ true
      → (full_match hostname_re (trim_space raw) ≡ true)
        ⊎ (is_some (bracketed_ip net (trim_space raw)) ≡ true)
  unfolding valid_forward_host
  valid_forward_host_cases raw h = ground arith

  -- A backend's host that is accepted is written, but for blanks at the ends, in name bytes.
  pub valid_forward_host-IsName :
      (raw : Text) → valid_forward_host net raw ≡ true → All IsName (trim_space raw)
  valid_forward_host-IsName raw h = elim (valid_forward_host_cases raw h) [
    | inl k ↦ hostname-IsName (trim_space raw) k
    | inr k ↦ bracketed_ip-IsName (trim_space raw) k
  ]

  valid_server_name_cases :
      (v : Text)
      → valid_server_name net v ≡ true
      → (is_some (bracketed_ip net v) ≡ true)
        ⊎ (full_match domain_re v ≡ true)
        ⊎ (full_match hostname_re v ≡ true)
  unfolding valid_server_name
  valid_server_name_cases v h = ground arith

  -- A server name that is accepted is written in letters, digits and the bytes _ . - [ ] : *
  pub valid_server_name-IsName : (v : Text) → valid_server_name net v ≡ true → All IsName v
  valid_server_name-IsName v h = elim (valid_server_name_cases v h) [
    | inl k ↦ bracketed_ip-IsName v k
    | inr k ↦ elim k [ inl m ↦ domain-IsName v m | inr m ↦ hostname-IsName v m ]
  ]
