-- ===== src/Net/Ipv4.antt =====
-- An instance of the interface: dotted quads are the addresses, each its own canonical form, and
-- the prefixes are dotted quads behind which /32 stands.
use zent_proxy.Base.{
  ℕ, ◌+◌, ◌≤◌, ◌≡◌, subst, inl, inr, Bool, true, false, ◌&&◌, Option, none, some, ◌++◌, arith, leb,
  ◌==◌, if◌then◌else◌, Bool-cases, All, All_weaken, Text, lit,
}
use zent_proxy.Net.{Net, is_ip_byte, is_ip_input}
use zent_proxy.Regex.{Regex, class, seq, alt, full_match}
use zent_proxy.Regex.Decides.{full_match_iff}
use zent_proxy.Regex.Alphabet.{Within, Matches-Within}
use zent_proxy.Strings.Search.{trim_suffix, has_suffix}

unfoldable pub digit_in : ℕ → ℕ → Regex
digit_in lo hi = class (λ c. leb (48 + lo) c && leb c (48 + hi))

unfoldable pub dot : Regex
dot = class (λ c. c == b'.')

-- 0 to 255, with no zero in front
unfoldable pub octet : Regex
unfolding digit_in
octet = alt (digit_in 0 9) (
    alt (seq (digit_in 1 9) (digit_in 0 9)) (
      alt (seq (digit_in 1 1) (seq (digit_in 0 9) (digit_in 0 9))) (
        alt (seq (digit_in 2 2) (seq (digit_in 0 4) (digit_in 0 9)))
          (seq (digit_in 2 2) (seq (digit_in 5 5) (digit_in 0 5))))))

unfoldable pub quad : Regex
unfolding octet dot
quad = seq octet (seq dot (seq octet (seq dot (seq octet (seq dot octet)))))

unfoldable pub ipv4 : Text → Option Text
unfolding quad full_match
ipv4 s = if full_match quad s then some s else none

ipv4-inv : (s t : Text) → ipv4 s ≡ some t → (s ≡ t) × (full_match quad s ≡ true)
unfolding ipv4
ipv4-inv s t h = elim (Bool-cases (full_match quad s)) [
  | inl e ↦ (ground arith, e)
  | inr e ↦ absurd (ground arith)
]

digit-IsIp :
    (lo hi c : ℕ) → hi ≤ 9 → (leb (48 + lo) c && leb c (48 + hi)) ≡ true → is_ip_byte c ≡ true
unfolding is_ip_byte
digit-IsIp lo hi c h k = ground arith

abbrev IsIp : ℕ → Type 0
IsIp c = is_ip_byte c ≡ true

octet-Within : Within IsIp octet
unfolding octet
octet-Within = (
  (λ c. digit-IsIp 0 9 c (omega arith)),
  (
    ((λ c. digit-IsIp 1 9 c (omega arith)), (λ c. digit-IsIp 0 9 c (omega arith))),
    (
      (
        (λ c. digit-IsIp 1 1 c (omega arith)),
        ((λ c. digit-IsIp 0 9 c (omega arith)), (λ c. digit-IsIp 0 9 c (omega arith))),
      ),
      (
        (
          (λ c. digit-IsIp 2 2 c (omega arith)),
          ((λ c. digit-IsIp 0 4 c (omega arith)), (λ c. digit-IsIp 0 9 c (omega arith))),
        ),
        (
          (λ c. digit-IsIp 2 2 c (omega arith)),
          ((λ c. digit-IsIp 5 5 c (omega arith)), (λ c. digit-IsIp 0 5 c (omega arith))),
        ),
      ),
    ),
  ),
)

dot-Within : Within IsIp dot
unfolding dot is_ip_byte
dot-Within c h = ground arith

quad-Within : Within IsIp quad
unfolding quad
quad-Within = let o = octet-Within in let d = dot-Within in (o, (d, (o, (d, (o, (d, o))))))

quad-IsIp : (s : Text) → full_match quad s ≡ true → All (λ c. is_ip_byte c ≡ true) s
quad-IsIp s h =
    Matches-Within (λ c. is_ip_byte c ≡ true) quad s quad-Within ((full_match_iff quad s).0 h)

pub canonical-ipv4 : (s t : Text) → ipv4 s ≡ some t → ipv4 t ≡ some t
canonical-ipv4 s t h = subst (λ u. ipv4 u ≡ some t) (ipv4-inv s t h).0 h

pub plain-ipv4 : (s t : Text) → ipv4 s ≡ some t → All (λ c. is_ip_byte c ≡ true) t
plain-ipv4 s t h =
    let (e, m) = ipv4-inv s t h in subst (All (λ c. is_ip_byte c ≡ true)) e (quad-IsIp s m)

is_ip_input_of_byte : (c : ℕ) → is_ip_byte c ≡ true → is_ip_input c ≡ true
unfolding is_ip_input
is_ip_input_of_byte c h = ground arith

pub written-ipv4 : (s t : Text) → ipv4 s ≡ some t → All (λ c. is_ip_input c ≡ true) s
written-ipv4 s t h =
    All_weaken (λ c. is_ip_byte c ≡ true) (λ c. is_ip_input c ≡ true) is_ip_input_of_byte s
      (quad-IsIp s (ipv4-inv s t h).1)

-- a prefix of one address
unfoldable pub ipv4_prefix : Text → Option Text
unfolding ipv4 trim_suffix has_suffix lit
ipv4_prefix s =
    let a = trim_suffix (lit "/32") s in
    if has_suffix (lit "/32") s then elim (ipv4 a) [ none ↦ none | some b ↦ some s ] else none

unfoldable pub ipv4_addr : Text → Option Text
unfolding ipv4 lit
ipv4_addr s = elim (ipv4 s) [ none ↦ none | some b ↦ some (b ++ lit "/32") ]

abbrev some_prefix : Option Text → Bool
some_prefix none = false
some_prefix (some t) = true

unfoldable pub dotted_quads : Net
unfolding ipv4 ipv4_prefix ipv4_addr
dotted_quads = record {
  parse_ip = ipv4;
  is_cidr = λ s. some_prefix (ipv4_prefix s);
  parse_prefix = ipv4_prefix;
  parse_addr = ipv4_addr;
  canonical = canonical-ipv4;
  plain = plain-ipv4;
  written = written-ipv4;
}
