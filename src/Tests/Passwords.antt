-- ===== src/Tests/Passwords.antt =====
-- A password that is hashed with stand-ins for the hash function and the encoding.
use zent_proxy.Base.{
  ℕ, zero, suc, ◌-◌, ◌≡◌, refl, ap, true, some, [], ◌∷◌, arith, ltb, if◌then◌else◌, Text, lit,
}
use zent_proxy.Strings.Split.{Lacks}
use zent_proxy.Auth.{Crypto, hash_password, verify_password}
use zent_proxy.Auth.Checked.{verify_password-hash_password}

abbrev zeros : ℕ → Text
zeros zero = []
zeros (suc n) = 0 ∷ zeros n

-- bytes from the dollar sign on are moved up by one
encode : Text → Text
encode [] = []
encode (c ∷ s) = (if ltb c 36 then c else suc c) ∷ encode s

decode : Text → Text
decode [] = []
decode (c ∷ s) = (if ltb c 36 then c else (c - 1)) ∷ decode s

decode-encode : (s : Text) → decode (encode s) ≡ s
unfolding decode encode
decode-encode [] = refl
decode-encode (c ∷ s) = ground (arith, decode-encode s)

encode-Lacks : (s : Text) → Lacks b'$' (encode s)
unfolding encode
encode-Lacks [] = tt
encode-Lacks (c ∷ s) = (ground arith, encode-Lacks s)

abbrev crypto : Crypto
crypto = record {
  hmac = λ key message. zeros 32;
  length-hmac = λ key message. refl;
  encode = encode;
  decode = λ s. some (decode s);
  decode-encode = λ s. ap some (decode-encode s);
  encode-Lacks = encode-Lacks;
}

verify_password-hash_password_example :
    (encoded : Text) × (hash_password crypto (lit "correct horse") (zeros 16) ≡ some encoded)
    × (verify_password crypto (lit "correct horse") encoded ≡ true)
unfolding lit
verify_password-hash_password_example =
    verify_password-hash_password crypto (lit "correct horse") (zeros 16) (omega arith)
      (omega arith)
