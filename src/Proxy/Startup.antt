-- ===== src/Proxy/Startup.antt =====
-- internal/proxy/manager.go: the start of the proxy. When the configuration names a backend that does
-- not resolve, the hosts that use it are pointed at a closed local port, and it is tried again.
pub mod Ends
pub mod Closed
use zent_proxy.Base.{
  ℕ, zero, suc, ◌+◌, ◌-◌, ◌/◌, ◌^◌, Bool, true, false, not, ◌&&◌, ◌||◌, Option, none, some, List,
  [], ◌∷◌, map, ◌==◌, if◌then◌else◌, length, Text, lit,
}
use zent_proxy.Base.Int.{pos}
use zent_proxy.Model.{CustomLocation, Host}
use zent_proxy.Net.{Net}
use zent_proxy.Strings.Trim.{is_nil, trim, trim_space}
use zent_proxy.Strings.Search.{strip_prefix, equal_fold, member}
use zent_proxy.Strings.Sorting.{sort_texts}
use zent_proxy.Proxy.Names.{is_bracket, is_some}
use zent_proxy.Proxy.Rules.{add_once}

-- `strings.Trim(s, "[]")`
unfoldable pub unbracket : Text → Text
unbracket s = trim is_bracket s

-- The text up to the next quote, if there is one and it is not empty.
unfoldable pub until_quote : Text → Option Text
until_quote [] = none
until_quote (c ∷ s) =
    let rest = until_quote s in
    if c == b'"' then some [] else elim rest [ none ↦ none | some t ↦ some (c ∷ t) ]

abbrev pub not_empty : Option Text → Option Text
not_empty none = none
not_empty (some []) = none
not_empty (some (c ∷ s)) = some (c ∷ s)

abbrev pub quoted_behind : Option Text → Option Text
quoted_behind none = none
quoted_behind (some s) = not_empty (until_quote s)

abbrev pub or_else : Option Text → Option Text → Option Text
or_else none o = o
or_else (some s) o = some s

-- `host not found in upstream "([^"]+)"`: the leftmost match's group
unfoldable pub unresolved_in : Text → Option Text
unresolved_in [] = none
unresolved_in (c ∷ s) =
    or_else (quoted_behind (strip_prefix (lit "host not found in upstream \"") (c ∷ s)))
      (unresolved_in s)

-- What stands before the last colon.
unfoldable pub before_colon : Text → Option Text
before_colon [] = none
before_colon (c ∷ s) =
    let rest = before_colon s in
    if c == b':'
    then (if member b':' s then elim rest [ none ↦ none | some t ↦ some (c ∷ t) ] else some [])
    else elim rest [ none ↦ none | some t ↦ some (c ∷ t) ]

-- one host's names, each once, without the addresses
unfoldable pub add_name : Net → List Text → Text → List Text
add_name net seen raw =
    let name = trim_space (unbracket raw) in
    if is_nil name || is_some (net.parse_ip name) then seen else add_once seen name

unfoldable pub add_locations : Net → Host → List CustomLocation → List Text → List Text
add_locations net h [] seen = seen
add_locations net h (loc ∷ locs) seen =
    let name = trim_space loc.forward_host in
    add_locations net h locs (add_name net seen (if is_nil name then h.forward_host else name))

unfoldable pub host_upstream_names : Net → Host → List Text
host_upstream_names net h =
    sort_texts (add_locations net h h.custom_locations (add_name net [] h.forward_host))

unfoldable pub folds_to : Text → List Text → Bool
folds_to s [] = false
folds_to s (t ∷ ts) = equal_fold t s || folds_to s ts

unfoldable pub isolate_location : CustomLocation → CustomLocation
isolate_location loc = record loc {
  scheme = lit "http";
  forward_host = lit "127.0.0.1";
  forward_port = pos 9;
}

unfoldable pub isolate_host : Host → Host
isolate_host h = record h {
  scheme = lit "http";
  forward_host = lit "127.0.0.1";
  forward_port = pos 9;
  custom_locations = map isolate_location h.custom_locations;
}

unfoldable pub references : Net → Text → Host → Bool
references net upstream h = h.enabled && folds_to upstream (host_upstream_names net h)

unfoldable pub isolate_all : Net → Text → List Host → List Host
isolate_all net upstream [] = []
isolate_all net upstream (h ∷ hs) =
    (if references net upstream h then isolate_host h else h) ∷ isolate_all net upstream hs

unfoldable pub isolated_names : Net → Text → List Host → List Text
isolated_names net upstream [] = []
isolated_names net upstream (h ∷ hs) =
    let rest = isolated_names net upstream hs in
    if references net upstream h then h.name ∷ rest else rest

unfoldable pub isolate_hosts_referencing_upstream : Net → List Host → Text → List Host × List Text
isolate_hosts_referencing_upstream net hosts raw =
    let upstream = unbracket (trim_space raw) in
    (isolate_all net upstream hosts, sort_texts (isolated_names net upstream hosts))

unfoldable pub add_names : List Text → List Text → List Text
add_names [] seen = seen
add_names (n ∷ ns) seen = add_names ns (add_once seen n)

-- How the start ends: with the whole configuration, with some hosts isolated, or not by trying again:
-- with the configuration that was there, with the neutral one, or not at all.
pub data Start : Type 0 where
  complete : Start
  degraded : List Text → Start
  retained neutral unusable : Start

pub record Tried : Type 0 where
  pub remaining : List Host
  pub error : Text
  pub skipped : List Text
  pub attempts : ℕ

-- One round of the loop ends it, with or without success, or goes on.
pub data Round : Type 0 where
  give_up : Round
  works : List Text → Round
  again : Tried → Round

abbrev pub no_names : List Text → Bool
no_names [] = true
no_names (n ∷ ns) = false

abbrev pub no_hosts : List Host → Bool
no_hosts [] = true
no_hosts (h ∷ hs) = false

-- `attempt n hosts` is the error of the n-th activation, which has these hosts, and
-- `split_host_port` is the host that `net.SplitHostPort` gives.
module _ (net : Net) (attempt : ℕ → List Host → Option Text)
    (split_host_port : Text → Option Text) where
  abbrev pub host_part : Option Text → Option Text → Text → Text
  host_part (some host) before value = unbracket (trim_space host)
  host_part none (some (c ∷ s)) value = unbracket (trim_space (c ∷ s))
  host_part none (some []) value = unbracket value
  host_part none none value = unbracket value

  abbrev pub upstream_in : Option Text → Text
  upstream_in none = []
  upstream_in (some raw) =
      let value = trim_space raw in host_part (split_host_port value) (before_colon value) value

  unfoldable pub unresolved_upstream_from_error : Text → Text
  unresolved_upstream_from_error error = upstream_in (unresolved_in error)

  abbrev pub after_attempt : Option Text → List Host → List Text → ℕ → Round
  after_attempt none hosts skipped attempts = works (sort_texts skipped)
  after_attempt (some e) hosts skipped attempts =
      again (record { remaining = hosts; error = e; skipped = skipped; attempts = attempts })

  unfoldable pub try_without : Tried → List Host × List Text → Round
  try_without t (hosts, isolated) =
      if no_names isolated
      then give_up
      else after_attempt (attempt t.attempts hosts) hosts (add_names isolated t.skipped)
          (suc t.attempts)

  unfoldable pub round : Tried → Round
  round t =
      let upstream = unresolved_upstream_from_error t.error in
      if no_hosts t.remaining || is_nil upstream
      then give_up
      else try_without t (isolate_hosts_referencing_upstream net t.remaining upstream)

  -- The loop; none when the fuel runs out. The result has the names of the isolated hosts, or none.
  unfoldable pub retry : ℕ → Tried → Option (Option (List Text))
  retry zero t = none
  retry (suc fuel) t = elim (round t) [
    | give_up ↦ some none
    | works skipped ↦ some (some skipped)
    | again next ↦ retry fuel next
  ]

  -- What is left when trying again does not help: `keeps` is whether the configuration on disk is
  -- there and valid, `writes` and `publishes` whether the neutral one is written and the start is
  -- published.
  unfoldable pub fall_back : Bool → Bool → Bool → Start
  fall_back keeps writes publishes =
      if keeps
      then (if publishes then retained else unusable)
      else if not writes
      then unusable
      else if publishes
      then neutral
      else unusable

  abbrev pub retried : Start → Option (Option (List Text)) → Option Start
  retried otherwise none = none
  retried otherwise (some none) = some otherwise
  retried otherwise (some (some skipped)) = some (degraded skipped)

  abbrev pub after_first : Start → Option (List Host) → Option Text → Option Start
  after_first otherwise listed none = some complete
  after_first otherwise none (some e) = some otherwise
  after_first otherwise (some hosts) (some e) = retried otherwise (
      retry (suc (length hosts))
        (record { remaining = hosts; error = e; skipped = []; attempts = 1 }))

  -- `listed` is what the store lists, if it does, and `first` the error of the first activation
  unfoldable pub apply_startup :
      Bool → Bool → Bool → Option (List Host) → Option Text → Option Start
  apply_startup keeps writes publishes listed first =
      after_first (fall_back keeps writes publishes) listed first

-- Opens the component for a test.
unfoldable pub startup : Unit {0}
unfolding unbracket until_quote unresolved_in before_colon add_name add_locations
    host_upstream_names folds_to isolate_location isolate_host references isolate_all isolated_names
    isolate_hosts_referencing_upstream add_names unresolved_upstream_from_error try_without round
    retry fall_back apply_startup
startup = tt
