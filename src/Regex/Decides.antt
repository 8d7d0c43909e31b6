-- ===== src/Regex/Decides.antt =====
-- Proofs on `full_match` and the relation `Matches`.
use zent_proxy.Base.{
  ℕ, zero, suc, ◌≤◌, ◌≡◌, refl, sym, ap, ◌∙◌, subst, ◌↔◌, inl, inr, true, List, [], ◌∷◌, ◌++◌,
  append-nil, append_assoc, arith, Bool-cases, length, length-append, In, In-append_left,
  In-append_right, In-append_split, Text,
}
use zent_proxy.Strings.Trim.{is_nil}
use zent_proxy.Regex.{
  Regex, class, empty, seq, alt, star, concat_map, rounds, one_of, rests, any_nil, full_match,
}
use zent_proxy.Regex.Matches.{Matches, byte, nothing, both, left, right, done, more}

-- What `t` leaves of `s` is a match.
Left : Regex → Text → Text → Type 0
Left r s t = (p : Text) × Matches r p × (s ≡ p ++ t)

concat_map-inv :
    (f : Text → List Text) (t : Text) (l : List Text)
    → In t (concat_map f l)
    → (m : Text) × In m l × In t (f m)
unfolding concat_map
concat_map-inv f t [] h = elim h [ ]
concat_map-inv f t (x ∷ l) h = elim (In-append_split t (f x) (concat_map f l) h) [
  | inl k ↦ (x, inl refl, k)
  | inr k ↦ let (m, i, j) = concat_map-inv f t l k in (m, inr i, j)
]

In-concat_map :
    (f : Text → List Text) (t m : Text) (l : List Text)
    → In m l
    → In t (f m)
    → In t (concat_map f l)
unfolding concat_map
In-concat_map f t m [] h k = elim h [ ]
In-concat_map f t m (x ∷ l) (inl e) k =
    In-append_left t (f x) (concat_map f l) (subst (λ y. In t (f y)) e k)
In-concat_map f t m (x ∷ l) (inr h) k =
    In-append_right t (f x) (concat_map f l) (In-concat_map f t m l h k)

-- Soundness -----------------------------------------------------------------------------------

join_star :
    (a : Regex) (p q u s t : Text)
    → Matches a p
    → Matches (star a) q
    → s ≡ p ++ u
    → u ≡ q ++ t
    → Left (star a) s t
unfolding Left
join_star a [] q u s t m k e f = (q, k, e ∙ f)
join_star a (c ∷ p) q u s t m k e f =
    ((c ∷ p) ++ q, more m k refl, e ∙ ap (λ v. (c ∷ p) ++ v) f ∙ sym (append_assoc (c ∷ p) q t))

module _ (a : Regex) (ih : (s t : Text) → In t (rests a s) → Left a s t) where
  rounds_sound : (n : ℕ) (s t : Text) → In t (rounds (rests a) n s) → Left (star a) s t
  unfolding rounds Left
  rounds_sound zero s t (inl e) = ([], done, sym e)
  rounds_sound zero s t (inr h) = elim h [ ]
  rounds_sound (suc n) s t (inl e) = ([], done, sym e)
  rounds_sound (suc n) s t (inr h) =
      let (m, i, j) = concat_map-inv (rounds (rests a) n) t (rests a s) h in
      let (p, mp, e) = ih s m i in
      let (q, mq, f) = rounds_sound n m t j in join_star a p q m s t mp mq e f

rests_sound : (r : Regex) (s t : Text) → In t (rests r s) → Left r s t
unfolding rests Left one_of
rests_sound (class p) [] t h = elim h [ ]
rests_sound (class p) (c ∷ s) t h = elim (Bool-cases (p c)) [
  | inl e ↦ (c ∷ [], byte e, ground arith)
  | inr e ↦ absurd (rw e at h)
]
rests_sound empty s t (inl e) = ([], nothing, sym e)
rests_sound empty s t (inr h) = elim h [ ]
rests_sound (seq a b) s t h =
    let (m, i, j) = concat_map-inv (rests b) t (rests a s) h in
    let (p, mp, e) = rests_sound a s m i in
    let (q, mq, f) = rests_sound b m t j in
    (p ++ q, both mp mq refl, e ∙ ap (λ v. p ++ v) f ∙ sym (append_assoc p q t))
rests_sound (alt a b) s t h = elim (In-append_split t (rests a s) (rests b s) h) [
  | inl k ↦ let (p, mp, e) = rests_sound a s t k in (p, left mp, e)
  | inr k ↦ let (p, mp, e) = rests_sound b s t k in (p, right mp, e)
]
rests_sound (star a) s t h = rounds_sound a (rests_sound a) (length s) s t h

-- Completeness --------------------------------------------------------------------------------

module _ (a : Regex) (ih : (p t : Text) → Matches a p → In t (rests a (p ++ t))) where
  In-rounds_self : (n : ℕ) (s : Text) → In s (rounds (rests a) n s)
  unfolding rounds
  In-rounds_self zero s = inl refl
  In-rounds_self (suc n) s = inl refl

  rounds_complete :
      (n : ℕ) (q t : Text) → Matches (star a) q → length q ≤ n → In t (rounds (rests a) n (q ++ t))
  unfolding rounds
  rounds_complete n q t done h = In-rounds_self n t
  rounds_complete zero q t (more {c} {s} {t = v} m k e) h =
      absurd (omega (arith, ap length e, length-append (c ∷ s) v))
  rounds_complete (suc n) q t (more {c} {s} {t = v} m k e) h = inr (
      In-concat_map (rounds (rests a) n) t (v ++ t) (rests a (q ++ t))
        (subst (λ w. In (v ++ t) (rests a w))
          (sym (append_assoc (c ∷ s) v t) ∙ ap (λ w. w ++ t) (sym e)) (ih (c ∷ s) (v ++ t) m))
        (rounds_complete n v t k (omega (arith, ap length e, length-append (c ∷ s) v))))

rests_complete : (r : Regex) (p t : Text) → Matches r p → In t (rests r (p ++ t))
unfolding rests one_of
rests_complete (class f) p t (byte e) = rw e (inl refl)
rests_complete empty p t nothing = inl refl
rests_complete (seq a b) p t (both {s} {t = u} m k e) =
    In-concat_map (rests b) t (u ++ t) (rests a (p ++ t))
      (subst (λ w. In (u ++ t) (rests a w)) (sym (append_assoc s u t) ∙ ap (λ w. w ++ t) (sym e))
        (rests_complete a s (u ++ t) m))
      (rests_complete b u t k)
rests_complete (alt a b) p t (left m) =
    In-append_left t (rests a (p ++ t)) (rests b (p ++ t)) (rests_complete a p t m)
rests_complete (alt a b) p t (right m) =
    In-append_right t (rests a (p ++ t)) (rests b (p ++ t)) (rests_complete b p t m)
rests_complete (star a) p t m =
    rounds_complete a (rests_complete a) (length (p ++ t)) p t m (omega (arith, length-append p t))

any_nil_iff : (l : List Text) → (any_nil l ≡ true) ↔ In [] l
unfolding any_nil is_nil
any_nil_iff [] = ground arith
any_nil_iff ([] ∷ l) = ground arith
any_nil_iff ((c ∷ s) ∷ l) = ground (arith, any_nil_iff l)

-- The matcher answers yes exactly for the texts that match, whatever the pattern.
pub full_match_iff : (r : Regex) (s : Text) → (full_match r s ≡ true) ↔ Matches r s
unfolding full_match Left
full_match_iff r s = (
  λ h.
      let (p, m, e) = rests_sound r s [] ((any_nil_iff (rests r s)).0 h) in
      subst (Matches r) (sym (append-nil p) ∙ sym e) m,
  λ m.
      (any_nil_iff (rests r s)).1
        (subst (λ w. In [] (rests r w)) (append-nil s) (rests_complete r s [] m)),
)
