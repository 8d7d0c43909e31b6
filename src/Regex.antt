-- ===== src/Regex.antt =====
-- Go's `regexp` on bytes, for the patterns of the program: anchored matches (`^…$`) of classes of
-- bytes, sequences, choices and repetitions. The proofs are in the modules below.
pub mod Matches
pub mod Decides
pub mod Alphabet
use zent_proxy.Base.{
  ℕ, zero, suc, ◌+◌, ◌-◌, ◌^◌, Bool, false, ◌||◌, List, [], ◌∷◌, ◌++◌, if◌then◌else◌, length, All,
  Text,
}
use zent_proxy.Strings.Trim.{is_nil}

pub data Regex : Type 0 where
  -- one byte of a class
  class : (ℕ → Bool) → Regex
  empty : Regex
  seq alt : Regex → Regex → Regex
  star : Regex → Regex

-- r?
abbrev pub opt : Regex → Regex
opt r = alt empty r

-- r+
abbrev pub plus : Regex → Regex
plus r = seq r (star r)

-- r{n}
unfoldable pub exactly : ℕ → Regex → Regex
exactly zero r = empty
exactly (suc n) r = seq r (exactly n r)

-- r{0,n}
unfoldable pub up_to : ℕ → Regex → Regex
up_to zero r = empty
up_to (suc n) r = alt empty (seq r (up_to n r))

unfoldable pub concat_map : (Text → List Text) → List Text → List Text
concat_map f [] = []
concat_map f (s ∷ r) = f s ++ concat_map f r

-- All that can be left of a text behind at most `n` rounds of a match.
unfoldable pub rounds : (Text → List Text) → ℕ → Text → List Text
rounds f zero s = s ∷ []
rounds f (suc n) s = s ∷ concat_map (rounds f n) (f s)

unfoldable pub one_of : (ℕ → Bool) → Text → List Text
one_of p [] = []
one_of p (c ∷ s) = if p c then s ∷ [] else []

-- All that can be left of a text behind a match at its beginning.
unfoldable pub rests : Regex → Text → List Text
rests (class p) s = one_of p s
rests empty s = s ∷ []
rests (seq a b) s = concat_map (rests b) (rests a s)
rests (alt a b) s = rests a s ++ rests b s
rests (star a) s = rounds (rests a) (length s) s

unfoldable pub any_nil : List Text → Bool
unfolding is_nil
any_nil [] = false
any_nil (s ∷ r) = is_nil s || any_nil r

-- `regexp.MatchString` of a pattern `^…$`.
unfoldable pub full_match : Regex → Text → Bool
full_match r s = any_nil (rests r s)

-- Opens the matcher for a test.
unfoldable pub regex : Unit {0}
unfolding concat_map rounds one_of rests any_nil full_match exactly up_to
regex = tt
