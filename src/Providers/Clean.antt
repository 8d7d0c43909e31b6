-- ===== src/Providers/Clean.antt =====
-- internal/providers/manager.go: proofs on what a refresh stores.
use zent_proxy.Base.{
  ◌≡◌, refl, sym, ap, ◌∙◌, ◌⊎◌, inl, inr, Option, none, some, List, [], ◌∷◌, Bool-cases, In,
  In-append_split, Text,
}
use zent_proxy.Model.{TrustedProxyProvider}
use zent_proxy.Net.{Net}
use zent_proxy.Strings.Trim.{is_nil, trim_space}
use zent_proxy.Strings.Split.{split}
use zent_proxy.Providers.{
  Response, unreached, replied, cut, Fetched, fetched, refused, take, body_limit, join_fetched,
  not_empty, is_success, parsed_line, read_lines, fetch_cidrs, fetch_all,
}
use zent_proxy.Providers.Sets.{IsClean, In-unique_sorted}
use zent_proxy.Store.Providers.{Registry}

module _ (net : Net) where
  -- the canonical form of a prefix or of an address
  abbrev pub IsCidr : Text → Type 0
  IsCidr c = (s : Text) × ((net.parse_prefix s ≡ some c) ⊎ (net.parse_addr s ≡ some c))

  abbrev pub AreCidrs : List Text → Type 0
  AreCidrs xs = (c : Text) → In c xs → IsCidr c

  -- a list of addresses as the store may hold it
  pub record IsGood (xs : List Text) : Type 0 where
    pub clean : IsClean xs
    pub cidrs : AreCidrs xs

  abbrev pub IsGoodRegistry : Registry → Type 0
  IsGoodRegistry st = (p : TrustedProxyProvider) → In p st.providers → IsGood p.cidrs

  abbrev pub Parsed : Fetched → Type 0
  Parsed (refused e) = Unit
  Parsed (fetched xs) = AreCidrs xs

  join_fetched-Parsed : (f g : Fetched) → Parsed f → Parsed g → Parsed (join_fetched f g)
  join_fetched-Parsed (refused e) g h k = tt
  join_fetched-Parsed (fetched xs) (refused e) h k = tt
  join_fetched-Parsed (fetched xs) (fetched ys) h k =
      λ c i. elim (In-append_split c xs ys i) [ inl j ↦ h c j | inr j ↦ k c j ]

  not_empty-Parsed : (f : Fetched) → Parsed f → Parsed (not_empty f)
  not_empty-Parsed (refused e) h = tt
  not_empty-Parsed (fetched []) h = tt
  not_empty-Parsed (fetched (x ∷ xs)) h = λ c i. h c ((In-unique_sorted c (x ∷ xs)).0 i)

  module _ (quote : Text → Text) where
    parsed_line-Parsed :
        (line : Text) (o : Option Text)
        → net.parse_prefix line ≡ o
        → Parsed (parsed_line net quote line o)
    parsed_line-Parsed line none e = tt
    parsed_line-Parsed line (some p) e =
        λ c i. elim i [ inl q ↦ (line, inl (e ∙ ap some (sym q))) | inr j ↦ elim j [ ] ]

    read_lines-Parsed : (lines : List Text) → Parsed (read_lines net quote lines)
    unfolding read_lines
    read_lines-Parsed [] = λ c i. elim i [ ]
    read_lines-Parsed (raw ∷ lines) = elim (Bool-cases (is_nil (trim_space raw))) [
      | inl e ↦ rw e (read_lines-Parsed lines)
      | inr e ↦ rw e (
          join_fetched-Parsed
            (parsed_line net quote (trim_space raw) (net.parse_prefix (trim_space raw)))
            (read_lines net quote lines)
            (parsed_line-Parsed (trim_space raw) (net.parse_prefix (trim_space raw)) refl)
            (read_lines-Parsed lines))
    ]

    fetch_cidrs-Parsed : (r : Response) → Parsed (fetch_cidrs net quote r)
    unfolding fetch_cidrs
    fetch_cidrs-Parsed (unreached e) = tt
    fetch_cidrs-Parsed (cut status e) = elim (Bool-cases (is_success status)) [
      | inl s ↦ rw s tt
      | inr s ↦ rw s tt
    ]
    fetch_cidrs-Parsed (replied status body) = elim (Bool-cases (is_success status)) [
      | inl s ↦ rw s (not_empty-Parsed _ (read_lines-Parsed (split b'\n' (take body_limit body))))
      | inr s ↦ rw s tt
    ]

    pub fetch_all-Parsed :
        (get : Text → Response) (us : List Text) → Parsed (fetch_all net quote get us)
    unfolding fetch_all
    fetch_all-Parsed get [] = λ c i. elim i [ ]
    fetch_all-Parsed get (u ∷ us) = elim (Bool-cases (is_nil (trim_space u))) [
      | inl e ↦ rw e (fetch_all-Parsed get us)
      | inr e ↦ rw e (
          join_fetched-Parsed (fetch_cidrs net quote (get u)) (fetch_all net quote get us)
            (fetch_cidrs-Parsed (get u)) (fetch_all-Parsed get us))
    ]
