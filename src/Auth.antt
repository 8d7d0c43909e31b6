-- ===== src/Auth.antt =====
-- internal/auth/auth.go: hashes of passwords.
pub mod Checked
use zent_proxy.Base.{
  ℕ, zero, suc, ◌+◌, ◌-◌, ◌*◌, ◌/◌, ◌%◌, ◌^◌, ◌≡◌, Bool, false, not, ◌||◌, Option, none, some, List,
  [], ◌∷◌, ◌++◌, ltb, ◌==◌, if◌then◌else◌, length, Text, lit,
}
use zent_proxy.Strings.Equality.{text_eq}
use zent_proxy.Strings.Split.{split, Lacks}
use zent_proxy.Strings.Search.{has_prefix, trim_prefix}
use zent_proxy.Strings.Decimal.{itoa}
use zent_proxy.Strings.Atoi.{atoi}

-- What the program uses of `crypto/hmac` with `crypto/sha256` and of `encoding/base64`, with what
-- their documentation says.
pub record Crypto : Type 0 where
  -- the code of a message with a key
  pub hmac : Text → Text → Text
  pub length-hmac : (key message : Text) → length (hmac key message) ≡ 32
  -- `base64.RawStdEncoding`
  pub encode : Text → Text
  pub decode : Text → Option Text
  pub decode-encode : (s : Text) → decode (encode s) ≡ some s
  pub encode-Lacks : (s : Text) → Lacks b'$' (encode s)

abbrev pub password_iterations : ℕ
password_iterations = 310000

abbrev pub hash_size : ℕ
hash_size = 32

-- `^` on bytes, bit by bit
unfoldable pub xor_bits : ℕ → ℕ → ℕ → ℕ
xor_bits zero a b = 0
xor_bits (suc n) a b = (a % 2 + b % 2) % 2 + 2 * xor_bits n (a / 2) (b / 2)

-- `t[j] ^= u[j]` for each `j`; both have the size of a hash
unfoldable pub xor_into : Text → Text → Text
xor_into [] u = []
xor_into (a ∷ t) [] = a ∷ t
xor_into (a ∷ t) (b ∷ u) = xor_bits 8 a b ∷ xor_into t u

-- a number as four bytes, the highest first
unfoldable pub be32 : ℕ → Text
be32 n = ((n / 16777216) % 256) ∷ ((n / 65536) % 256) ∷ ((n / 256) % 256) ∷ (n % 256) ∷ []

unfoldable pub take_bytes : ℕ → Text → Text
take_bytes zero s = []
take_bytes (suc n) [] = []
take_bytes (suc n) (c ∷ s) = c ∷ take_bytes n s

abbrev pub no_plus : Text → Text
no_plus [] = []
no_plus (c ∷ s) = if c == b'+' then s else c ∷ s

-- `strconv.Atoi`, where a negative number counts as none: it is too small
unfoldable pub iterations_of : Text → Option ℕ
iterations_of s = atoi (no_plus s)

module _ (crypto : Crypto) (password : Text) where
  -- the rounds that are left, with `u` and `t`
  unfoldable pub stretch : ℕ → Text → Text → Text
  stretch zero u t = t
  stretch (suc n) u t = let next = crypto.hmac password u in stretch n next (xor_into t next)

  unfoldable pub hash_block : Text → ℕ → ℕ → Text
  hash_block salt iterations block =
      let u = crypto.hmac password (salt ++ be32 block) in stretch (iterations - 1) u u

  -- the blocks from one on, and how many
  unfoldable pub hash_blocks : Text → ℕ → ℕ → ℕ → Text
  hash_blocks salt iterations block zero = []
  hash_blocks salt iterations block (suc n) =
      hash_block salt iterations block ++ hash_blocks salt iterations (suc block) n

  unfoldable pub pbkdf2_sha256 : Text → ℕ → ℕ → Text
  pbkdf2_sha256 salt iterations key_len =
      take_bytes key_len (hash_blocks salt iterations 1 ((key_len + hash_size - 1) / hash_size))

  -- `salt` is what `rand.Read` gives.
  unfoldable pub hash_password : Text → Option Text
  hash_password salt =
      if ltb (length password) 10
      then none
      else some (
          lit "$pbkdf2-sha256$i="
          ++ (itoa password_iterations
              ++ (lit "$"
                  ++ (crypto.encode salt
                      ++ (lit "$"
                          ++ crypto.encode (pbkdf2_sha256 salt password_iterations hash_size))))))

  abbrev pub compare_hash : ℕ → Text → Option Text → Bool
  compare_hash iterations salt none = false
  compare_hash iterations salt (some expected) =
      if ltb (length expected) 16
      then false
      else text_eq (pbkdf2_sha256 salt iterations (length expected)) expected

  abbrev pub with_salt : ℕ → Option Text → Text → Bool
  with_salt iterations none hash = false
  with_salt iterations (some salt) hash =
      if ltb (length salt) 8 then false else compare_hash iterations salt (crypto.decode hash)

  abbrev pub with_iterations : Option ℕ → Text → Text → Bool
  with_iterations none salt hash = false
  with_iterations (some n) salt hash =
      if ltb n 100000 || ltb 2000000 n then false else with_salt n (crypto.decode salt) hash

  abbrev pub verify_parts : List Text → Bool
  verify_parts (a ∷ kind ∷ cost ∷ salt ∷ hash ∷ []) =
      if not (text_eq kind (lit "pbkdf2-sha256")) || not (has_prefix (lit "i=") cost)
      then false
      else with_iterations (iterations_of (trim_prefix (lit "i=") cost)) salt hash
  verify_parts parts = false

  unfoldable pub verify_password : Text → Bool
  verify_password encoded = verify_parts (split b'$' encoded)
