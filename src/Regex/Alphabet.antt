-- ===== src/Regex/Alphabet.antt =====
-- Proofs on the bytes of texts that match a pattern.
use zent_proxy.Base.{ℕ, zero, suc, ◌≡◌, sym, subst, true, ◌∷◌, All, All-append, Text}
use zent_proxy.Regex.{Regex, class, empty, seq, alt, star, exactly, up_to}
use zent_proxy.Regex.Matches.{Matches, byte, nothing, both, left, right, done, more}

module _ (P : ℕ → Type 0) where
  -- Every class of the pattern lies in `P`.
  abbrev pub Within : Regex → Type 0
  Within (class p) = (c : ℕ) → p c ≡ true → P c
  Within empty = Unit
  Within (seq a b) = Within a × Within b
  Within (alt a b) = Within a × Within b
  Within (star a) = Within a

  pub Matches-Within : (r : Regex) (s : Text) → Within r → Matches r s → All P s
  Matches-Within (class p) s w (byte {c} e) = (w c e, tt)
  Matches-Within empty s w nothing = tt
  Matches-Within (seq a b) s w (both {s = u} {t = v} m k e) =
      subst (All P) (sym e) (All-append P u v (Matches-Within a u w.0 m) (Matches-Within b v w.1 k))
  Matches-Within (alt a b) s w (left m) = Matches-Within a s w.0 m
  Matches-Within (alt a b) s w (right m) = Matches-Within b s w.1 m
  Matches-Within (star a) s w done = tt
  Matches-Within (star a) s w (more {c} {s = u} {t = v} m k e) =
      subst (All P) (sym e)
        (All-append P (c ∷ u) v (Matches-Within a (c ∷ u) w m) (Matches-Within (star a) v w k))

  pub Within-exactly : (n : ℕ) (r : Regex) → Within r → Within (exactly n r)
  unfolding exactly
  Within-exactly zero r w = tt
  Within-exactly (suc n) r w = (w, Within-exactly n r w)

  pub Within-up_to : (n : ℕ) (r : Regex) → Within r → Within (up_to n r)
  unfolding up_to
  Within-up_to zero r w = tt
  Within-up_to (suc n) r w = (tt, (w, Within-up_to n r w))
