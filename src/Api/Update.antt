-- ===== src/Api/Update.antt =====
-- internal/api/update.go: versions, and the check for a newer release with its cache. Times are in
-- nanoseconds, and `none` is the zero time.
pub mod Versions
pub mod Honest
use zent_proxy.Base.{
  ℕ, zero, ◌+◌, ◌-◌, ◌/◌, ◌<◌, String, Bool, false, not, ◌||◌, Option, none, some, List, [], ◌∷◌,
  ltb, ◌==◌, if◌then◌else◌, Text, lit,
}
use zent_proxy.Strings.Trim.{is_nil, trim_space}
use zent_proxy.Strings.Split.{split, join}
use zent_proxy.Strings.Search.{has_prefix, trim_prefix}
use zent_proxy.Strings.Decimal.{itoa}
use zent_proxy.Strings.Atoi.{atoi}

pub record Semver : Type 0 where
  pub major : ℕ
  pub minor : ℕ
  pub patch : ℕ

-- the text in front of a plus or a minus
unfoldable pub cut_at_sign : Text → Text
cut_at_sign [] = []
cut_at_sign (c ∷ s) = let rest = cut_at_sign s in if c == b'+' || c == b'-' then [] else c ∷ rest

abbrev pub semver_of : Option ℕ → Option ℕ → Option ℕ → Option Semver
semver_of (some a) (some b) (some c) = some (record { major = a; minor = b; patch = c })
semver_of none b c = none
semver_of (some a) none c = none
semver_of (some a) (some b) none = none

-- `Atoi` rejects an empty part as well.
abbrev pub semver_of_parts : List Text → Option Semver
semver_of_parts (a ∷ b ∷ c ∷ []) = semver_of (atoi a) (atoi b) (atoi c)
semver_of_parts ps = none

unfoldable pub parse_semver : Text → Option Semver
parse_semver raw =
    semver_of_parts (split b'.' (cut_at_sign (trim_space (trim_prefix (lit "v") (trim_space raw)))))

unfoldable pub greater_than : Semver → Semver → Bool
greater_than v w =
    if not (v.major == w.major)
    then ltb w.major v.major
    else if not (v.minor == w.minor)
    then ltb w.minor v.minor
    else ltb w.patch v.patch

-- `String()`
unfoldable pub show_semver : Semver → Text
show_semver v = join b'.' (itoa v.major ∷ itoa v.minor ∷ itoa v.patch ∷ [])

pub record ReleaseStatus : Type 0 where
  pub current_version : Text
  pub latest_version : Text
  pub update_available : Bool
  pub release_url : Text
  pub checked_at : Option ℕ

pub record ReleaseChecker : Type 0 where
  pub current_version : Text
  pub cached : ReleaseStatus
  pub checked_at : Option ℕ

pub record Release : Type 0 where
  pub tag_name : Text
  pub html_url : Text
  pub draft : Bool
  pub prerelease : Bool

-- what the request for the latest release gives: none, or a status and a body, where it is decoded
pub data GithubReply : Type 0 where
  unreached : GithubReply
  replied : ℕ → Option Release → GithubReply

-- 12 hours
abbrev pub release_check_ttl : ℕ
release_check_ttl = 43200000000000

abbrev pub release_page_url : Text
release_page_url = lit "https://github.com/ZentWorks/ZentProxy/releases"

abbrev pub release_url_prefix : Text
release_url_prefix = lit "https://github.com/ZentWorks/ZentProxy/"

unfoldable pub no_status : ReleaseStatus
no_status = record {
  current_version = [];
  latest_version = [];
  update_available = false;
  release_url = [];
  checked_at = none;
}

unfoldable pub new_release_checker : Text → ReleaseChecker
new_release_checker version = record {
  current_version = trim_space version;
  cached = no_status;
  checked_at = none;
}

unfoldable pub empty_status : ReleaseChecker → ℕ → ReleaseStatus
empty_status c now = record no_status { current_version = c.current_version; checked_at = some now }

abbrev pub stale_at : ReleaseChecker → ℕ → Option ℕ → ReleaseStatus
stale_at c now none = empty_status c now
stale_at c now (some at) = c.cached

unfoldable pub stale_or_empty : ReleaseChecker → ℕ → ReleaseChecker × ReleaseStatus
stale_or_empty c now = (c, stale_at c now c.checked_at)

-- `now.Sub(checkedAt) < releaseCheckTTL`, also where the clock went back
abbrev pub is_recent : ℕ → Option ℕ → Bool
is_recent now none = false
is_recent now (some at) = ltb now (at + release_check_ttl)

unfoldable pub checked_url : Text → Text
checked_url raw =
    let url = trim_space raw in
    if is_nil url || not (has_prefix release_url_prefix url) then release_page_url else url

unfoldable pub announce : Semver → Semver → Text → Text → ℕ → ReleaseStatus
announce current latest version url now = record {
  current_version = version;
  latest_version = show_semver latest;
  update_available = greater_than latest current;
  release_url = checked_url url;
  checked_at = some now;
}

unfoldable pub remember : ReleaseChecker → ℕ → ReleaseStatus → ReleaseChecker × ReleaseStatus
remember c now st = (record c { cached = st; checked_at = some now }, st)

abbrev pub with_latest :
    ReleaseChecker → ℕ → Semver → Text → Option Semver → ReleaseChecker × ReleaseStatus
with_latest c now current url none = stale_or_empty c now
with_latest c now current url (some latest) =
    remember c now (announce current latest c.current_version url now)

abbrev pub with_reply : ReleaseChecker → ℕ → Semver → GithubReply → ReleaseChecker × ReleaseStatus
with_reply c now current unreached = stale_or_empty c now
with_reply c now current (replied status none) = stale_or_empty c now
with_reply c now current (replied status (some r)) =
    if not (status == 200) || (r.draft || r.prerelease)
    then stale_or_empty c now
    else with_latest c now current r.html_url (parse_semver r.tag_name)

abbrev pub with_current :
    ReleaseChecker → ℕ → GithubReply → Option Semver → ReleaseChecker × ReleaseStatus
with_current c now reply none = remember c now (empty_status c now)
with_current c now reply (some current) = with_reply c now current reply

unfoldable pub status : ReleaseChecker → ℕ → GithubReply → ReleaseChecker × ReleaseStatus
status c now reply =
    if is_recent now c.checked_at
    then (c, c.cached)
    else with_current c now reply (parse_semver c.current_version)

-- one request after another, each with its time and with the reply that it would get
unfoldable pub statuses : List (ℕ × GithubReply) → ReleaseChecker → ReleaseChecker
statuses [] c = c
statuses ((now, reply) ∷ rs) c = statuses rs (status c now reply).0

-- Opens the component for a test.
unfoldable pub updates : Unit {0}
unfolding cut_at_sign parse_semver greater_than show_semver no_status new_release_checker
    empty_status stale_or_empty checked_url announce remember status statuses itoa atoi
updates = tt
