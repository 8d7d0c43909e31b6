-- ===== src/Analytics/Reading.antt =====
-- internal/analytics/tailer.go: proofs on lines, chunks and positions.
use zent_proxy.Base.{
  ℕ, zero, suc, ◌≤◌, ◌<◌, ◌≡◌, refl, sym, ap, ◌∙◌, ◌≢◌, inl, inr, Option, none, some, List, [], ◌∷◌,
  ◌++◌, append-nil, append_assoc, arith, ◌==◌, ==_iff, Bool-cases, length, Text,
}
use zent_proxy.Strings.Trim.{is_space, trim_left, keep, trim_right, trim, trim_space}
use zent_proxy.Strings.Split.{split, Lacks, split-ne-nil, split-append}
use zent_proxy.Analytics.Lines.{Codec, RawRequest, parse_log_line}
use zent_proxy.Analytics.Tailer.{
  take_rows, drop, push_byte, read_string, insert_chunks, add_request,
}

trim_right-newline : (s : Text) → trim_right is_space (s ++ (b'\n' ∷ [])) ≡ trim_right is_space s
unfolding trim_right is_space
trim_right-newline [] = refl
trim_right-newline (c ∷ s) = ap (keep is_space c) (trim_right-newline s)

trim-newline :
    (s : Text)
    → trim_right is_space (trim_left is_space (s ++ (b'\n' ∷ [])))
      ≡ trim_right is_space (trim_left is_space s)
unfolding trim_left
trim-newline [] = unfold trim_right is_space in refl
trim-newline (c ∷ s) = elim (Bool-cases (is_space c)) [
  | inl e ↦ rw e (trim-newline s)
  | inr e ↦ rw e (trim_right-newline (c ∷ s))
]

pub trim_space-newline : (s : Text) → trim_space (s ++ (b'\n' ∷ [])) ≡ trim_space s
unfolding trim_space trim
trim_space-newline s = trim-newline s

pub drop-append : {A : Type 0} (xs ys : List A) → drop (length xs) (xs ++ ys) ≡ ys
unfolding drop
drop-append [] ys = refl
drop-append (x ∷ xs) ys = drop-append xs ys

take-drop_rows : {A : Type 0} (n : ℕ) (xs : List A) → take_rows n xs ++ drop n xs ≡ xs
unfolding take_rows drop
take-drop_rows zero xs = refl
take-drop_rows (suc n) [] = refl
take-drop_rows (suc n) (x ∷ xs) = ap (λ l. x ∷ l) (take-drop_rows n xs)

length-drop_le : {A : Type 0} (n : ℕ) (xs : List A) → length (drop n xs) ≤ length xs
unfolding drop
length-drop_le zero xs = omega arith
length-drop_le (suc n) [] = omega arith
length-drop_le (suc n) (x ∷ xs) = omega (arith, length-drop_le n xs)

length-drop_lt : {A : Type 0} (x : A) (xs : List A) → length (drop 50 (x ∷ xs)) < length (x ∷ xs)
unfolding drop
length-drop_lt x xs = omega (arith, length-drop_le 49 xs)

-- a line with its end, at the front of a text
pub record IsLine (t line : Text) : Type 0 where
  pub body : Text
  pub rest : Text
  pub lacks : Lacks b'\n' body
  pub whole : line ≡ body ++ (b'\n' ∷ [])
  pub front : t ≡ line ++ rest

IsLine-cons :
    (c : ℕ) (s line : Text) (o : Option Text)
    → c ≢ b'\n'
    → ((d : Text) → o ≡ some d → IsLine s d)
    → push_byte c o ≡ some line
    → IsLine (c ∷ s) line
IsLine-cons c s line none n h k = absurd (cc)
IsLine-cons c s line (some d) n h k =
    let i : IsLine s d = h d refl in
    let q : (c ∷ d) ≡ line = ground arith in
    record {
      body = c ∷ i.body;
      rest = i.rest;
      lacks = (n, i.lacks);
      whole = sym q ∙ ap (λ x. c ∷ x) i.whole;
      front = ap (λ x. c ∷ x) i.front ∙ ap (λ x. x ++ i.rest) q;
    }

pub read_string-IsLine : (t line : Text) → read_string t ≡ some line → IsLine t line
unfolding read_string
read_string-IsLine [] line h = absurd (cc)
read_string-IsLine (c ∷ s) line h = elim (Bool-cases (c == b'\n')) [
  | inl e ↦
      let k : some (c ∷ []) ≡ some line = rw e at h in
      let q : (c ∷ []) ≡ line = ground arith in
      let p : c ≡ b'\n' = (==_iff c b'\n').0 e in
      record {
        body = [];
        rest = s;
        lacks = tt;
        whole = sym q ∙ ap (λ x. x ∷ []) p;
        front = ap (λ l. l ++ s) q;
      }
  | inr e ↦
      let n : c ≢ b'\n' = ground arith in
      IsLine-cons c s line (read_string s) n (read_string-IsLine s) (rw e at h)
]

module _ (codec : Codec) where
  insert_chunks-fuel :
      (fuel : ℕ) (requests rows : List (RawRequest codec))
      → length requests ≤ fuel
      → insert_chunks codec fuel requests rows ≡ rows ++ requests
  unfolding insert_chunks
  insert_chunks-fuel zero [] rows h = sym (append-nil rows)
  insert_chunks-fuel zero (q ∷ qs) rows h = absurd (omega arith)
  insert_chunks-fuel (suc fuel) [] rows h = sym (append-nil rows)
  insert_chunks-fuel (suc fuel) (q ∷ qs) rows h =
      insert_chunks-fuel fuel (drop 50 (q ∷ qs)) (rows ++ take_rows 50 (q ∷ qs))
        (omega (arith, length-drop_lt q qs))
      ∙ append_assoc rows (take_rows 50 (q ∷ qs)) (drop 50 (q ∷ qs))
      ∙ ap (λ l. rows ++ l) (take-drop_rows 50 (q ∷ qs))

  -- The chunks of a batch insert all of its requests, in their order.
  pub insert_chunks-all :
      (requests rows : List (RawRequest codec))
      → insert_chunks codec (length requests) requests rows ≡ rows ++ requests
  insert_chunks-all requests rows = insert_chunks-fuel (length requests) requests rows (omega arith)

  -- the request of a line, or none
  abbrev pub as_list : Option (RawRequest codec) → List (RawRequest codec)
  as_list none = []
  as_list (some q) = q ∷ []

  pub add_request-as_list :
      (o : Option (RawRequest codec)) (pending : List (RawRequest codec))
      → add_request codec o pending ≡ pending ++ as_list o
  add_request-as_list none pending = sym (append-nil pending)
  add_request-as_list (some q) pending = refl

  abbrev pub request_of_line : Text → List (RawRequest codec)
  request_of_line l = as_list (parse_log_line codec (trim_space l))

  -- the last part is a line that is not finished
  abbrev pub of_parts : List Text → List (RawRequest codec)
  of_parts [] = []
  of_parts (l ∷ []) = []
  of_parts (l ∷ m ∷ ls) = request_of_line l ++ of_parts (m ∷ ls)

  -- The requests that a log holds: those of its finished lines, in their order.
  unfoldable pub requests_in : Text → List (RawRequest codec)
  requests_in t = of_parts (split b'\n' t)

  -- A text of whole lines, with its requests.
  pub data IsLog : Text → List (RawRequest codec) → Type 0 where
    empty : {s : Text} {rs : List (RawRequest codec)} → s ≡ [] → rs ≡ [] → IsLog s rs
    more :
        {s : Text} {rs : List (RawRequest codec)} (l t : Text) (qs : List (RawRequest codec))
        → Lacks b'\n' l
        → IsLog t qs
        → s ≡ l ++ (b'\n' ∷ t)
        → rs ≡ request_of_line l ++ qs
        → IsLog s rs

  pub IsLog-append :
      (s t : Text) (rs qs : List (RawRequest codec))
      → IsLog s rs
      → IsLog t qs
      → IsLog (s ++ t) (rs ++ qs)
  IsLog-append s t rs qs (IsLog.empty p q) h = rw (p, q) h
  IsLog-append s t rs qs (IsLog.more l u ps k g p q) h =
      IsLog.more l (u ++ t) (ps ++ qs) k (IsLog-append u t ps qs g h)
        (rw p (append_assoc l (b'\n' ∷ u) t)) (rw q (append_assoc (request_of_line l) ps qs))

  of_parts-cons :
      (l : Text) (ls : List Text) → ls ≢ [] → of_parts (l ∷ ls) ≡ request_of_line l ++ of_parts ls
  of_parts-cons l [] n = absurd (n refl)
  of_parts-cons l (m ∷ ls) n = refl

  pub IsLog-requests_in :
      (s : Text) (rs : List (RawRequest codec)) → IsLog s rs → requests_in s ≡ rs
  unfolding requests_in
  IsLog-requests_in s rs (IsLog.empty p q) = rw (p, q) (unfold split in refl)
  IsLog-requests_in s rs (IsLog.more l t qs k g p q) =
      rw (p, q)
        (ap of_parts (split-append b'\n' l t k)
          ∙ of_parts-cons l (split b'\n' t) (split-ne-nil b'\n' t)
          ∙ ap (λ x. request_of_line l ++ x) (IsLog-requests_in t qs g))

  -- one line that was read
  pub line-IsLog :
      (l : Text)
      → Lacks b'\n' l
      → IsLog (l ++ (b'\n' ∷ [])) (as_list (parse_log_line codec (trim_space (l ++ (b'\n' ∷ [])))))
  line-IsLog l k = IsLog.more l [] [] k (IsLog.empty refl refl) refl (
      ap (λ x. as_list (parse_log_line codec x)) (trim_space-newline l)
      ∙ sym (append-nil (request_of_line l)))
