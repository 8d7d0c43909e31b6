-- ===== src/Proxy/Startup/Ends.antt =====
-- internal/proxy/manager.go: proofs on the loop of the start, with the measure that falls.
use zent_proxy.Base.{
  ℕ, zero, suc, ◌+◌, ◌≤◌, ◌<◌, ◌≡◌, refl, sym, ap, ◌∙◌, subst, ◌≢◌, inl, inr, Bool, true, false,
  ◌||◌, Option, none, some, List, [], ◌∷◌, map, arith, Bool-cases, length, Text, lit,
}
use zent_proxy.Model.{CustomLocation, Host}
use zent_proxy.Net.{Net}
use zent_proxy.Strings.Trim.{is_nil, trim, trim_space, trim_left, trim_right, is_space}
use zent_proxy.Strings.Sorting.{sort_texts, text_le, length-sort_by}
use zent_proxy.Proxy.Names.{is_bracket, is_some}
use zent_proxy.Proxy.Startup.{
  unbracket, add_name, add_locations, host_upstream_names, folds_to, isolate_location, isolate_host,
  references, isolate_all, isolated_names, isolate_hosts_referencing_upstream, add_names, Start,
  Tried, Round, give_up, works, again, no_names, no_hosts, unresolved_upstream_from_error,
  after_attempt, try_without, round, retry, fall_back, retried, after_first, apply_startup,
}

no_names-length : (ns : List Text) → no_names ns ≡ false → 1 ≤ length ns
no_names-length [] p = absurd (cc)
no_names-length (n ∷ ns) p = omega arith

abbrev remaining_of : List Host → Round → List Host
remaining_of hosts (again t) = t.remaining
remaining_of hosts give_up = hosts
remaining_of hosts (works skipped) = hosts

data Way (r : Round) : Type 0 where
  stops : r ≡ give_up → Way r
  ends : (skipped : List Text) → r ≡ works skipped → Way r
  goes : (next : Tried) → r ≡ again next → Way r

Round-cases : (r : Round) → Way r
Round-cases give_up = stops refl
Round-cases (works skipped) = ends skipped refl
Round-cases (again next) = goes next refl

module _ (net : Net) (loopback : is_some (net.parse_ip (lit "127.0.0.1")) ≡ true) where
  local_name : (seen : List Text) → add_name net seen (lit "127.0.0.1") ≡ seen
  unfolding add_name unbracket lit trim is_bracket trim_space is_nil trim_left trim_right is_space
  local_name seen = rw loopback refl

  isolated_locations :
      (h : Host) (locs : List CustomLocation) (seen : List Text)
      → add_locations net h (map isolate_location locs) seen ≡ seen
  unfolding add_locations isolate_location lit trim_space is_nil trim trim_left trim_right is_space
  isolated_locations h [] seen = refl
  isolated_locations h (loc ∷ locs) seen =
      ap (add_locations net h (map isolate_location locs)) (local_name seen)
      ∙ isolated_locations h locs seen

  sort_nothing : sort_texts [] ≡ []
  unfolding sort_texts zent_proxy.Strings.Sorting.sort_by
  sort_nothing = refl

  pub isolate_host-names : (h : Host) → host_upstream_names net (isolate_host h) ≡ []
  unfolding host_upstream_names isolate_host
  isolate_host-names h =
      rw (local_name [])
        (rw (isolated_locations (isolate_host h) h.custom_locations []) sort_nothing)

module _ (net : Net) (attempt : ℕ → List Host → Option Text) (split_host_port : Text → Option Text)
    (loopback : is_some (net.parse_ip (lit "127.0.0.1")) ≡ true) where
  -- The hosts that have the name of a backend.
  abbrev weigh : List Text → ℕ
  weigh [] = 0
  weigh (n ∷ ns) = 1

  weight : List Host → ℕ
  weight [] = 0
  weight (h ∷ hs) = weigh (host_upstream_names net h) + weight hs

  weigh-le : (ns : List Text) → weigh ns ≤ 1
  weigh-le [] = omega arith
  weigh-le (n ∷ ns) = omega arith

  weigh-folds_to : (s : Text) (ns : List Text) → folds_to s ns ≡ true → weigh ns ≡ 1
  unfolding folds_to
  weigh-folds_to s [] p = absurd (cc)
  weigh-folds_to s (n ∷ ns) p = refl

  references-weigh :
      (upstream : Text) (h : Host)
      → references net upstream h ≡ true
      → weigh (host_upstream_names net h) ≡ 1
  unfolding references
  references-weigh upstream h p = weigh-folds_to upstream (host_upstream_names net h) (ground arith)

  weight-le : (hs : List Host) → weight hs ≤ length hs
  unfolding weight
  weight-le [] = omega arith
  weight-le (h ∷ hs) =
      let below = weigh-le (host_upstream_names net h) in omega (arith, weight-le hs)

  -- Each host that is isolated had a name, and has none.
  weight-isolate_all :
      (upstream : Text) (hs : List Host)
      → weight (isolate_all net upstream hs) + length (isolated_names net upstream hs) ≡ weight hs
  unfolding weight isolate_all isolated_names
  weight-isolate_all upstream [] = refl
  weight-isolate_all upstream (h ∷ hs) = elim (Bool-cases (references net upstream h)) [
    | inl e ↦
        let none_left : weigh (host_upstream_names net (isolate_host h)) ≡ 0 =
          rw (isolate_host-names net loopback h) refl in
        let one : weigh (host_upstream_names net h) ≡ 1 = references-weigh upstream h e in
        let rest = weight-isolate_all upstream hs in rw e (omega arith)
    | inr e ↦ let rest = weight-isolate_all upstream hs in rw e (omega arith)
  ]

  no_names-sort_texts : (ns : List Text) → no_names (sort_texts ns) ≡ false → 1 ≤ length ns
  unfolding sort_texts
  no_names-sort_texts ns p =
      let same = length-sort_by text_le ns in
      let some_ = no_names-length (sort_texts ns) p in omega arith

  after_attempt-inv :
      (o : Option Text) (hosts : List Host) (skipped : List Text) (n : ℕ) (next : Tried)
      → after_attempt net attempt split_host_port o hosts skipped n ≡ again next
      → next.remaining ≡ hosts
  after_attempt-inv none hosts skipped n next p = absurd (cc)
  after_attempt-inv (some e) hosts skipped n next p =
      ap (λ (r : Round). remaining_of hosts r) (sym p)

  try_without-decreases :
      (t : Tried) (hosts : List Host) (isolated : List Text) (next : Tried)
      → try_without net attempt split_host_port t (hosts, isolated) ≡ again next
      → (next.remaining ≡ hosts) × (no_names isolated ≡ false)
  unfolding try_without
  try_without-decreases t hosts isolated next p = elim (Bool-cases (no_names isolated)) [
    | inl e ↦ absurd (let q = rw e at p in cc)
    | inr e ↦ (
      after_attempt-inv (attempt t.attempts hosts) hosts (add_names isolated t.skipped)
          (suc t.attempts) next (rw e at p),
      e,
    )
  ]

  round-decreases :
      (t next : Tried)
      → round net attempt split_host_port t ≡ again next
      → weight next.remaining < weight t.remaining
  unfolding round isolate_hosts_referencing_upstream
  round-decreases t next p =
      let upstream = unresolved_upstream_from_error net attempt split_host_port t.error in
      let target = unbracket (trim_space upstream) in
      elim (Bool-cases (no_hosts t.remaining || is_nil upstream)) [
        | inl e ↦ absurd (let q = rw e at p in cc)
        | inr e ↦
            let (same, ne) =
              try_without-decreases t (isolate_all net target t.remaining)
                (sort_texts (isolated_names net target t.remaining)) next (rw e at p) in
            let gone = no_names-sort_texts (isolated_names net target t.remaining) ne in
            let sum = weight-isolate_all target t.remaining in
            let eq = ap weight same in omega arith
      ]

  retry-ends :
      (fuel : ℕ) (t : Tried)
      → weight t.remaining < fuel
      → retry net attempt split_host_port fuel t ≢ none
  unfolding retry
  retry-ends zero t h = absurd (omega arith)
  retry-ends (suc fuel) t h =
      let Ends : Round → Type 0 = λ r.
        elim r as (λ x. Option (Option (List Text))) [
          | give_up ↦ some none
          | works skipped ↦ some (some skipped)
          | again next ↦ retry net attempt split_host_port fuel next
        ]
        ≢ none in
      elim (Round-cases (round net attempt split_host_port t)) [
        | stops e ↦ subst Ends (sym e) (λ p. absurd (cc))
        | ends skipped e ↦ subst Ends (sym e) (λ p. absurd (cc))
        | goes next e ↦
            let less = round-decreases t next e in
            subst Ends (sym e) (retry-ends fuel next (omega arith))
      ]

  retried-some :
      (otherwise : Start) (o : Option (Option (List Text)))
      → o ≢ none
      → retried net attempt split_host_port otherwise o ≢ none
  retried-some otherwise none n p = n refl
  retried-some otherwise (some none) n p = absurd (cc)
  retried-some otherwise (some (some skipped)) n p = absurd (cc)

  after_first-some :
      (otherwise : Start) (listed : Option (List Host)) (first : Option Text)
      → after_first net attempt split_host_port otherwise listed first ≢ none
  after_first-some otherwise listed none = λ p. absurd (cc)
  after_first-some otherwise none (some e) = λ p. absurd (cc)
  after_first-some otherwise (some hosts) (some e) =
      let t : Tried = record { remaining = hosts; error = e; skipped = []; attempts = 1 } in
      let few = weight-le hosts in
      retried-some otherwise (retry net attempt split_host_port (suc (length hosts)) t)
        (retry-ends (suc (length hosts)) t (omega arith))

  -- If 127.0.0.1 is an address, the start has a result, whatever the activations do: a number of rounds
  -- one above the number of hosts is enough.
  pub apply_startup-ends :
      (keeps writes publishes : Bool) (listed : Option (List Host)) (first : Option Text)
      → apply_startup net attempt split_host_port keeps writes publishes listed first ≢ none
  unfolding apply_startup
  apply_startup-ends keeps writes publishes listed first =
      after_first-some (fall_back net attempt split_host_port keeps writes publishes) listed first
