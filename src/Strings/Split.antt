-- ===== src/Strings/Split.antt =====
-- `strings.Split` at one byte, `Join`, `Fields`, and decimal printing.
use zent_proxy.Base.{
  ℕ, ◌≡◌, refl, ap, ◌∙◌, ◌≢◌, inl, inr, List, [], ◌∷◌, ◌++◌, arith, ◌==◌, if◌then◌else◌, ==_iff,
  Bool-cases, All, Text,
}
use zent_proxy.Strings.Trim.{is_space}

-- puts a byte in front of the first part
unfoldable pub push_head : ℕ → List Text → List Text
push_head d [] = (d ∷ []) ∷ []
push_head d (x ∷ xs) = (d ∷ x) ∷ xs

unfoldable pub split : ℕ → Text → List Text
unfolding push_head
split sep [] = [] ∷ []
split sep (d ∷ s) = let rest = split sep s in if d == sep then [] ∷ rest else push_head d rest

unfoldable pub join : ℕ → List Text → Text
join sep [] = []
join sep (x ∷ []) = x
join sep (x ∷ y ∷ r) = x ++ (sep ∷ join sep (y ∷ r))

abbrev pub Lacks : ℕ → Text → Type 0
Lacks c s = All (λ d. d ≢ c) s

pub split-ne-nil : (sep : ℕ) (s : Text) → split sep s ≢ []
unfolding split
split-ne-nil sep [] = cc
split-ne-nil sep (d ∷ s) = go (split sep s)
  where
    go : (r : List Text) → (if d == sep then [] ∷ r else push_head d r) ≢ []
    go [] = ground arith
    go (x ∷ r) = ground arith

-- A part with no separator, at the end or before one, is split off whole.
split_last : (sep : ℕ) (x : Text) → Lacks sep x → split sep x ≡ x ∷ []
unfolding split
split_last sep [] h = refl
split_last sep (d ∷ x) (p, h) = ground (arith, split_last sep x h)

pub split-append :
    (sep : ℕ) (x rest : Text) → Lacks sep x → split sep (x ++ (sep ∷ rest)) ≡ x ∷ split sep rest
unfolding split
split-append sep [] rest h = ground arith
split-append sep (d ∷ x) rest (p, h) = ground (arith, split-append sep x rest h)

-- Splitting gives back what was joined, when no part holds the separator.
pub split-join :
    (sep : ℕ) (x : Text) (xs : List Text)
    → Lacks sep x
    → All (Lacks sep) xs
    → split sep (join sep (x ∷ xs)) ≡ x ∷ xs
unfolding join
split-join sep x [] p h = split_last sep x p
split-join sep x (y ∷ r) p (q, h) =
    split-append sep x (join sep (y ∷ r)) p ∙ ap (λ l. x ∷ l) (split-join sep y r q h)

Lacks-push_head :
    (sep d : ℕ) (xs : List Text) → d ≢ sep → All (Lacks sep) xs → All (Lacks sep) (push_head d xs)
unfolding push_head
Lacks-push_head sep d [] n h = ((n, tt), tt)
Lacks-push_head sep d (x ∷ xs) n (p, h) = ((n, p), h)

-- No part that was split off holds the separator.
pub split-Lacks : (sep : ℕ) (s : Text) → All (Lacks sep) (split sep s)
unfolding split
split-Lacks sep [] = (tt, tt)
split-Lacks sep (d ∷ s) = elim (Bool-cases (d == sep)) [
  | inl e ↦ rw e (tt, split-Lacks sep s)
  | inr e ↦ rw e (Lacks-push_head sep d (split sep s) (ground arith) (split-Lacks sep s))
]

-- Joining gives back what was split.
pub join-split : (sep : ℕ) (s : Text) → join sep (split sep s) ≡ s
unfolding join split
join-split sep [] = refl
join-split sep (d ∷ s) = elim (Bool-cases (d == sep)) [
  | inl e ↦ rw e (go_sep ((==_iff d sep).0 e) (split sep s) (split-ne-nil sep s) (join-split sep s))
  | inr e ↦ rw e (go_byte (split sep s) (split-ne-nil sep s) (join-split sep s))
]
  where
    go_sep : d ≡ sep → (r : List Text) → r ≢ [] → join sep r ≡ s → join sep ([] ∷ r) ≡ d ∷ s
    go_sep e [] n h = absurd (n refl)
    go_sep e (x ∷ r) n h = cc (e, h)

    go_byte : (r : List Text) → r ≢ [] → join sep r ≡ s → join sep (push_head d r) ≡ d ∷ s
    go_byte [] n h = absurd (n refl)
    go_byte (x ∷ []) n h = ap (λ t. d ∷ t) h
    go_byte (x ∷ y ∷ r) n h = ap (λ t. d ∷ t) h

-- ends the current word, if there is one
unfoldable pub end_word : Text → List Text → List Text
end_word [] ws = ws
end_word (c ∷ w) ws = (c ∷ w) ∷ ws

-- `strings.Fields`: the longest runs of bytes that are no white space. The head of the result is
-- the word that the text begins with, empty if it begins with white space.
unfoldable pub words : Text → List Text
unfolding push_head end_word is_space
words [] = [] ∷ []
words (c ∷ s) = let rest = words s in if is_space c then [] ∷ rest else push_head c rest

unfoldable pub drop_empty : List Text → List Text
drop_empty [] = []
drop_empty ([] ∷ r) = drop_empty r
drop_empty ((c ∷ w) ∷ r) = (c ∷ w) ∷ drop_empty r

unfoldable pub fields : Text → List Text
fields s = drop_empty (words s)
