-- ===== src/Api/Update/Honest.antt =====
-- internal/api/update.go: proofs on the announced release.
use zent_proxy.Base.{
  ℕ, ◌≡◌, refl, sym, ◌∙◌, subst, inl, inr, true, not, ◌||◌, Option, none, some, List, [], ◌∷◌,
  arith, ◌==◌, Bool-cases, Text, lit,
}
use zent_proxy.Strings.Trim.{is_nil, trim_space}
use zent_proxy.Strings.Search.{strip_prefix, has_prefix}
use zent_proxy.Api.Update.{
  Semver, parse_semver, ReleaseStatus, ReleaseChecker, GithubReply, unreached, replied,
  release_url_prefix, no_status, new_release_checker, empty_status, stale_at, stale_or_empty,
  is_recent, checked_url, announce, remember, with_latest, with_reply, with_current, status,
  statuses,
}
use zent_proxy.Api.Update.Versions.{
  parse_semver-show_semver, parse_semver-Fits, IsAbove, greater_than-IsAbove,
}

-- An announced update is a version above the current one, the first number that differs being the
-- greater, and its address begins with that of the project.
pub record IsHonest (version : Text) (s : ReleaseStatus) : Type 0 where
  pub newer :
      s.update_available ≡ true
      → (v : Semver) × (w : Semver) × (parse_semver s.latest_version ≡ some v)
        × (parse_semver version ≡ some w)
        × IsAbove v w
  pub page : s.update_available ≡ true → has_prefix release_url_prefix s.release_url ≡ true

abbrev Honest : ReleaseChecker → Type 0
Honest c = IsHonest c.current_version c.cached

empty-IsHonest : (c : ReleaseChecker) (now : ℕ) → IsHonest c.current_version (empty_status c now)
unfolding empty_status no_status
empty-IsHonest c now = record { newer = λ q. absurd (cc); page = λ q. absurd (cc) }

checked_url-prefix : (url : Text) → has_prefix release_url_prefix (checked_url url) ≡ true
unfolding checked_url
checked_url-prefix url =
    elim (Bool-cases
      (is_nil (trim_space url) || not (has_prefix release_url_prefix (trim_space url)))) [
        | inl e ↦ rw e (unfold has_prefix strip_prefix lit in refl)
        | inr e ↦ rw e (ground arith)
      ]

announce-IsHonest :
    (version url : Text) (current latest : Semver) (now : ℕ) (tag : Text)
    → parse_semver version ≡ some current
    → parse_semver tag ≡ some latest
    → IsHonest version (announce current latest version url now)
unfolding announce
announce-IsHonest version url current latest now tag p q = record {
  newer = λ r. (
    latest,
    current,
    parse_semver-show_semver latest (parse_semver-Fits tag latest q),
    p,
    (greater_than-IsAbove latest current).0 r,
  );
  page = λ r. checked_url-prefix url;
}

-- the checker and the answer
abbrev BothHonest : Text → ReleaseChecker × ReleaseStatus → Type 0
BothHonest version (c, s) =
    (c.current_version ≡ version) × IsHonest version c.cached × IsHonest version s

module _ (c : ReleaseChecker) (now : ℕ) (h : Honest c) where
  stale-BothHonest : BothHonest c.current_version (stale_or_empty c now)
  unfolding stale_or_empty
  stale-BothHonest = (refl, h, go c.checked_at)
    where
      go : (o : Option ℕ) → IsHonest c.current_version (stale_at c now o)
      go none = empty-IsHonest c now
      go (some at) = h

  with_latest-BothHonest :
      (current : Semver) (url tag : Text)
      → parse_semver c.current_version ≡ some current
      → (o : Option Semver) → parse_semver tag ≡ o
      → BothHonest c.current_version (with_latest c now current url o)
  unfolding remember
  with_latest-BothHonest current url tag p none q = stale-BothHonest
  with_latest-BothHonest current url tag p (some latest) q =
      let k : IsHonest c.current_version (announce current latest c.current_version url now) =
        announce-IsHonest c.current_version url current latest now tag p q in
      (refl, k, k)

  with_reply-BothHonest :
      (current : Semver) (reply : GithubReply)
      → parse_semver c.current_version ≡ some current
      → BothHonest c.current_version (with_reply c now current reply)
  with_reply-BothHonest current unreached p = stale-BothHonest
  with_reply-BothHonest current (replied code none) p = stale-BothHonest
  with_reply-BothHonest current (replied code (some r)) p =
      elim (Bool-cases (not (code == 200) || (r.draft || r.prerelease))) [
        | inl e ↦ rw e stale-BothHonest
        | inr e ↦
            rw e (
              with_latest-BothHonest current r.html_url r.tag_name p (parse_semver r.tag_name) refl)
      ]

  with_current-BothHonest :
      (reply : GithubReply) (o : Option Semver)
      → parse_semver c.current_version ≡ o
      → BothHonest c.current_version (with_current c now reply o)
  unfolding remember
  with_current-BothHonest reply none p = (refl, empty-IsHonest c now, empty-IsHonest c now)
  with_current-BothHonest reply (some current) p = with_reply-BothHonest current reply p

  status-BothHonest : (reply : GithubReply) → BothHonest c.current_version (status c now reply)
  unfolding status
  status-BothHonest reply = elim (Bool-cases (is_recent now c.checked_at)) [
    | inl e ↦ rw e (refl, h, h)
    | inr e ↦ rw e (with_current-BothHonest reply (parse_semver c.current_version) refl)
  ]

statuses-Honest :
    (rs : List (ℕ × GithubReply)) (c : ReleaseChecker) (version : Text)
    → c.current_version ≡ version
    → IsHonest version c.cached
    → ((statuses rs c).current_version ≡ version) × IsHonest version (statuses rs c).cached
unfolding statuses
statuses-Honest [] c version e h = (e, h)
statuses-Honest ((now, reply) ∷ rs) c version e h =
    let k : BothHonest c.current_version (status c now reply) =
      status-BothHonest c now (subst (λ v. IsHonest v c.cached) (sym e) h) reply in
    statuses-Honest rs (status c now reply).0 version (k.0 ∙ e)
      (subst (λ v. IsHonest v (status c now reply).0.cached) e k.1)

-- Whatever the requests before, their times and the replies to them, an answer that announces an
-- update names a version above the current one, where the first of major, minor and patch that
-- differs is the greater, and gives an address that begins with that of the project.
pub status-IsHonest :
    (version : Text) (rs : List (ℕ × GithubReply)) (now : ℕ) (reply : GithubReply)
    → IsHonest (trim_space version) (status (statuses rs (new_release_checker version)) now reply).1
unfolding new_release_checker no_status
status-IsHonest version rs now reply =
    let (e, h) =
      statuses-Honest rs (new_release_checker version) (trim_space version) refl
        (record { newer = λ q. absurd (cc); page = λ q. absurd (cc) }) in
    let k =
      status-BothHonest (statuses rs (new_release_checker version)) now
        (subst (λ v. IsHonest v (statuses rs (new_release_checker version)).cached) (sym e) h)
        reply in
    subst (λ v. IsHonest v (status (statuses rs (new_release_checker version)) now reply).1) e k.2
