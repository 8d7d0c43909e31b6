-- ===== src/Providers.antt =====
-- internal/providers/manager.go: the address lists of trusted proxies, downloaded, compared with the
-- stored ones, stored and activated, with the rows of internal/db/store.go.
pub mod Sets
pub mod Clean
pub mod Kept
pub mod Synced
pub mod Refused
use zent_proxy.Model.{TrustedProxyProvider}
use zent_proxy.Net.{Net}
use zent_proxy.Strings.Equality.{text_eq, has}
use zent_proxy.Strings.Trim.{is_nil, trim_space}
use zent_proxy.Strings.Sorting.{sort_by, sort_texts}
use zent_proxy.Strings.Split.{split}
use zent_proxy.Strings.Decimal.{itoa}
use zent_proxy.Store.Rows.{find, replace, remove}
use zent_proxy.Store.Providers.{
  Call, read_row, write_row, read_back, Registry, Row, row, missing, failed, id_of, listed_before,
  get_provider, write_result, update_provider_result, apply,
}
use zent_proxy.Api.State.{Outcome}
use zent_proxy.Base.{
  ℕ, zero, suc, Bool, true, false, not, ◌&&◌, ◌||◌, Option, none, some, List, [], ◌∷◌, ◌++◌, ltb,
  ◌==◌, if◌then◌else◌, length, Text, lit,
}

-- the reply to a download
pub data Response : Type 0 where
  unreached : Text → Response
  replied : ℕ → Text → Response
  -- the body cannot be read
  cut : ℕ → Text → Response

pub data Fetched : Type 0 where
  fetched : List Text → Fetched
  refused : Text → Fetched

-- `_, ok := m[v]` before `m[v] = struct{}{}`
unfoldable pub dedup : List Text → List Text
dedup [] = []
dedup (x ∷ xs) = let rest = dedup xs in if has x rest then rest else x ∷ rest

unfoldable pub unique_sorted : List Text → List Text
unique_sorted xs = sort_texts (dedup xs)

unfoldable pub texts_eq : List Text → List Text → Bool
texts_eq [] [] = true
texts_eq (a ∷ as_) (b ∷ bs) = text_eq a b && texts_eq as_ bs
texts_eq _ _ = false

unfoldable pub same_strings : List Text → List Text → Bool
same_strings a b =
    if not (length a == length b) then false else texts_eq (sort_texts a) (sort_texts b)

-- io.LimitReader
unfoldable pub take : ℕ → Text → Text
take zero s = []
take (suc n) [] = []
take (suc n) (c ∷ s) = c ∷ take n s

abbrev pub body_limit : ℕ
body_limit = 1048576

-- `fetched` behind one more list, unless either is refused
abbrev pub join_fetched : Fetched → Fetched → Fetched
join_fetched (refused e) rest = refused e
join_fetched (fetched xs) (refused e) = refused e
join_fetched (fetched xs) (fetched ys) = fetched (xs ++ ys)

abbrev pub not_empty : Fetched → Fetched
not_empty (refused e) = refused e
not_empty (fetched []) = refused (lit "provider returned no CIDR ranges")
not_empty (fetched (x ∷ xs)) = fetched (unique_sorted (x ∷ xs))

unfoldable pub is_success : ℕ → Bool
is_success status = not (ltb status 200 || ltb 299 status)

abbrev pub status_error : ℕ → Fetched
status_error status = refused (lit "provider returned HTTP " ++ itoa status)

-- `quote` is `strconv.Quote`
module _ (net : Net) (quote : Text → Text) where
  abbrev pub parsed_line : Text → Option Text → Fetched
  parsed_line line none = refused (lit "invalid CIDR from provider: " ++ quote line)
  parsed_line line (some p) = fetched (p ∷ [])

  unfoldable pub read_lines : List Text → Fetched
  read_lines [] = fetched []
  read_lines (raw ∷ lines) =
      let rest = read_lines lines in
      let line = trim_space raw in
      if is_nil line then rest else join_fetched (parsed_line line (net.parse_prefix line)) rest

  unfoldable pub fetch_cidrs : Response → Fetched
  fetch_cidrs (unreached e) = refused e
  fetch_cidrs (cut status e) = if is_success status then refused e else status_error status
  fetch_cidrs (replied status body) =
      if is_success status
      then not_empty (read_lines (split b'\n' (take body_limit body)))
      else status_error status

  unfoldable pub fetch_all : (Text → Response) → List Text → Fetched
  fetch_all get [] = fetched []
  fetch_all get (u ∷ us) =
      let rest = fetch_all get us in
      if is_nil (trim_space u) then rest else join_fetched (fetch_cidrs (get u)) rest

  -- what happens during one refresh
  pub record Trip : Type 0 where
    pub now : ℕ
    pub get : Text → Response
    pub fails : Call → Bool

  pub data Result : Type 0 where
    found : TrustedProxyProvider → Result
    -- the row cannot be read or written
    no_row : Result
    broken_store : Result
    not_automatic : Result
    -- `onChange` gives an error
    not_activated : Result

  abbrev pub result_of : Row → Result
  result_of (row p) = found p
  result_of missing = no_row
  result_of failed = broken_store

  abbrev pub back : Trip → ℕ → Registry → Registry × Result
  back t id st = (st, result_of (get_provider (t.fails read_back) id st))

  -- `onChange` is `proxy.Apply`; `outcome` says what the n-th activation does.
  module _ (outcome : ℕ → List TrustedProxyProvider → Outcome) where
    abbrev pub after_change : Trip → ℕ → Registry × Bool → Registry × Result
    after_change t id (st, true) = back t id st
    after_change t id (st, false) = (st, not_activated)

    abbrev pub change : Bool → Trip → ℕ → Registry → Registry × Result
    change false t id st = back t id st
    change true t id st = after_change t id (apply outcome st)

    abbrev pub store_fetched : Trip → TrustedProxyProvider → Fetched → Registry → Registry × Result
    store_fetched t p (refused e) st =
        back t p.id (update_provider_result (t.fails write_row) p.id p.cidrs t.now false e st).0
    store_fetched t p (fetched cidrs) st =
        let all = unique_sorted cidrs in
        let changed = not (same_strings all p.cidrs) in
        let (written, ok) =
          update_provider_result (t.fails write_row) p.id all t.now changed [] st in
        if not ok then (st, broken_store) else change changed t p.id written

    abbrev pub refresh_row : Trip → Row → Registry → Registry × Result
    refresh_row t missing st = (st, no_row)
    refresh_row t failed st = (st, broken_store)
    refresh_row t (row p) st =
        if not p.auto_update
        then (st, not_automatic)
        else store_fetched t p (fetch_all t.get (p.source_ipv4 ∷ p.source_ipv6 ∷ [])) st

    unfoldable pub refresh : Trip → ℕ → Registry → Registry × Result
    refresh t id st = refresh_row t (get_provider (t.fails read_row) id st) st

    -- the automatic ones of a list that was read before, one after the other
    unfoldable pub refresh_each : (ℕ → Trip) → List TrustedProxyProvider → Registry → Registry
    refresh_each trips [] st = st
    refresh_each trips (p ∷ ps) st =
        refresh_each trips ps (if p.auto_update then (refresh (trips p.id) p.id st).0 else st)

    unfoldable pub refresh_all : Bool → (ℕ → Trip) → Registry → Registry
    refresh_all fails trips st =
        if fails then st else refresh_each trips (sort_by listed_before st.providers) st

-- Opens the component for a test.
unfoldable pub providers : Unit {0}
unfolding dedup unique_sorted texts_eq same_strings take read_lines is_success fetch_cidrs fetch_all
    refresh refresh_each refresh_all find replace remove listed_before id_of get_provider
    update_provider_result write_result apply
providers = tt
