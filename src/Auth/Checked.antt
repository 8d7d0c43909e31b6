-- ===== src/Auth/Checked.antt =====
-- internal/auth/auth.go: proofs on hashes of passwords.
use zent_proxy.Base.{
  ℕ, zero, suc, ◌+◌, ◌-◌, ◌*◌, ◌/◌, ◌≤◌, ◌≡◌, refl, ap, ◌∙◌, ◌≢◌, true, false, some, [], ◌∷◌, ◌++◌,
  arith, ltb, length, length-append, All, All-append, All_weaken, Text, lit,
}
use zent_proxy.Strings.Equality.{text_eq_self}
use zent_proxy.Strings.Split.{split, join, Lacks, split-join}
use zent_proxy.Strings.Search.{strip_prefix, has_prefix, trim_prefix, member}
use zent_proxy.Strings.Decimal.{itoa, IsDigit, itoa-IsDigit}
use zent_proxy.Strings.Atoi.{atoi-itoa}
use zent_proxy.Auth.{
  Crypto, password_iterations, xor_into, be32, take_bytes, no_plus, iterations_of, stretch,
  hash_block, hash_blocks, pbkdf2_sha256, hash_password, compare_hash, verify_password,
}

length-xor_into : (t u : Text) → length (xor_into t u) ≡ length t
unfolding xor_into
length-xor_into [] u = refl
length-xor_into (a ∷ t) [] = refl
length-xor_into (a ∷ t) (b ∷ u) = ap suc (length-xor_into t u)

length-take_bytes : (n : ℕ) (s : Text) → n ≤ length s → length (take_bytes n s) ≡ n
unfolding take_bytes
length-take_bytes zero s h = refl
length-take_bytes (suc n) [] h = absurd (omega arith)
length-take_bytes (suc n) (c ∷ s) h = omega (arith, length-take_bytes n s (omega arith))

no_plus-digits : (s : Text) → All IsDigit s → no_plus s ≡ s
no_plus-digits [] h = refl
no_plus-digits (c ∷ s) (p, h) = ground arith

digits-lack : (s : Text) → All IsDigit s → Lacks b'$' s
digits-lack = All_weaken IsDigit (λ c. c ≢ b'$') (λ c h e. omega arith)

Lacks-of_member : (s : Text) → member b'$' s ≡ false → Lacks b'$' s
unfolding member
Lacks-of_member [] h = tt
Lacks-of_member (c ∷ s) h = (λ e. ground arith, Lacks-of_member s (ground arith))

trim_prefix-cost : (s : Text) → trim_prefix (lit "i=") (lit "i=" ++ s) ≡ s
unfolding trim_prefix strip_prefix lit
trim_prefix-cost s = refl

has_prefix-cost : (s : Text) → has_prefix (lit "i=") (lit "i=" ++ s) ≡ true
unfolding has_prefix strip_prefix lit
has_prefix-cost s = refl

module _ (crypto : Crypto) (password : Text) where
  length-stretch : (n : ℕ) (u t : Text) → length (stretch crypto password n u t) ≡ length t
  unfolding stretch
  length-stretch zero u t = refl
  length-stretch (suc n) u t =
      length-stretch n (crypto.hmac password u) (xor_into t (crypto.hmac password u))
      ∙ length-xor_into t (crypto.hmac password u)

  length-hash_block :
      (salt : Text) (iterations block : ℕ)
      → length (hash_block crypto password salt iterations block) ≡ 32
  unfolding hash_block
  length-hash_block salt iterations block =
      length-stretch (iterations - 1) _ (crypto.hmac password (salt ++ be32 block))
      ∙ crypto.length-hmac password (salt ++ be32 block)

  length-hash_blocks :
      (salt : Text) (iterations block n : ℕ)
      → length (hash_blocks crypto password salt iterations block n) ≡ 32 * n
  unfolding hash_blocks
  length-hash_blocks salt iterations block zero = refl
  length-hash_blocks salt iterations block (suc n) = omega (
    arith,
    length-append (hash_block crypto password salt iterations block)
        (hash_blocks crypto password salt iterations (suc block) n),
    length-hash_block salt iterations block,
    length-hash_blocks salt iterations (suc block) n,
  )

  -- A derived key has the length that was asked for.
  pub length-pbkdf2_sha256 :
      (salt : Text) (iterations n : ℕ)
      → length (pbkdf2_sha256 crypto password salt iterations n) ≡ n
  unfolding pbkdf2_sha256
  length-pbkdf2_sha256 salt iterations n =
      let blocks : length (hash_blocks crypto password salt iterations 1 ((n + 32 - 1) / 32))
          ≡ 32 * ((n + 32 - 1) / 32) =
        length-hash_blocks salt iterations 1 ((n + 32 - 1) / 32) in
      length-take_bytes n _ (omega (arith, blocks))

  abbrev derived : Text → Text
  derived salt = pbkdf2_sha256 crypto password salt password_iterations 32

  abbrev cost : Text
  cost = lit "i=" ++ itoa password_iterations

  encoded : Text → Text
  encoded salt =
      join b'$'
        ([] ∷ lit "pbkdf2-sha256" ∷ cost ∷ crypto.encode salt ∷ crypto.encode (derived salt) ∷ [])

  hash_password-encoded :
      (salt : Text)
      → 10 ≤ length password
      → hash_password crypto password salt ≡ some (encoded salt)
  unfolding hash_password encoded join lit
  hash_password-encoded salt h =
      let e : ltb (length password) 10 ≡ false = ground arith in rw e refl

  split-encoded :
      (salt : Text)
      → split b'$' (encoded salt)
        ≡ [] ∷ lit "pbkdf2-sha256" ∷ cost ∷ crypto.encode salt ∷ crypto.encode (derived salt) ∷ []
  unfolding encoded
  split-encoded salt =
      split-join b'$' []
        (lit "pbkdf2-sha256" ∷ cost ∷ crypto.encode salt ∷ crypto.encode (derived salt) ∷ []) tt
        (
          Lacks-of_member (lit "pbkdf2-sha256") (unfold member lit in refl),
          (
            All-append (λ c. c ≢ b'$') (lit "i=") (itoa password_iterations)
                (Lacks-of_member (lit "i=") (unfold member lit in refl))
                (digits-lack (itoa password_iterations) (itoa-IsDigit password_iterations)),
            (crypto.encode-Lacks salt, (crypto.encode-Lacks (derived salt), tt)),
          ),
        )

  -- A password of at least ten bytes is accepted for the hash that was made of it, with any salt of
  -- at least eight bytes.
  pub verify_password-hash_password :
      (salt : Text)
      → 10 ≤ length password
      → 8 ≤ length salt
      → (encoded : Text) × (hash_password crypto password salt ≡ some encoded)
        × (verify_password crypto password encoded ≡ true)
  verify_password-hash_password salt h k = (encoded salt, hash_password-encoded salt h, accepted)
    where
      length-derived : length (derived salt) ≡ 32
      length-derived = length-pbkdf2_sha256 salt password_iterations 32

      compared : compare_hash crypto password password_iterations salt (some (derived salt)) ≡ true
      compared =
          let e : ltb (length (derived salt)) 16 ≡ false = ground (arith, length-derived) in
          rw (e, length-derived) (text_eq_self (derived salt))

      long_salt : ltb (length salt) 8 ≡ false
      long_salt = ground arith

      iterations : iterations_of (itoa password_iterations) ≡ some password_iterations
      iterations =
          unfold iterations_of in
          rw (no_plus-digits (itoa password_iterations) (itoa-IsDigit password_iterations))
            (atoi-itoa password_iterations (omega arith))

      accepted : verify_password crypto password (encoded salt) ≡ true
      accepted =
          unfold verify_password in
          rw
            (
              split-encoded salt,
              text_eq_self (lit "pbkdf2-sha256"),
              has_prefix-cost (itoa password_iterations),
              trim_prefix-cost (itoa password_iterations),
              iterations,
              crypto.decode-encode salt,
              long_salt,
              crypto.decode-encode (derived salt),
            )
            compared
