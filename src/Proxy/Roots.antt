-- ===== src/Proxy/Roots.antt =====
-- internal/proxy/manager.go: the domains under which the hosts stand, which ZentLoop is told.
use zent_proxy.Base.{
  ◌≡◌, ap, ◌∙◌, ◌↔◌, ◌⊎◌, inl, inr, true, false, ◌&&◌, ◌||◌, List, [], ◌∷◌, reverse, arith, ◌==◌,
  if◌then◌else◌, Bool-cases, length, In, Text, lit,
}
use zent_proxy.Model.{Host}
use zent_proxy.Net.{Net}
use zent_proxy.Strings.Equality.{has, Distinct}
use zent_proxy.Strings.Trim.{is_nil}
use zent_proxy.Strings.Search.{trim_prefix, trim_suffix}
use zent_proxy.Strings.Split.{split, join}
use zent_proxy.Strings.Sorting.{
  sort_texts, IsSorted, sort_texts-IsSorted, sort_texts-Distinct, In-sort_texts,
}
use zent_proxy.Proxy.Names.{is_some, bracketed_ip, normalize_server_name}
use zent_proxy.Proxy.Rules.{add_once}
use zent_proxy.Proxy.Rules.Added.{add_once-Distinct, In-add_once}

unfoldable pub common_country_second_levels : List Text
common_country_second_levels =
    lit "ac"
    ∷ lit "asn"
    ∷ lit "co"
    ∷ lit "com"
    ∷ lit "edu"
    ∷ lit "firm"
    ∷ lit "gen"
    ∷ lit "go"
    ∷ lit "gov"
    ∷ lit "id"
    ∷ lit "ind"
    ∷ lit "ltd"
    ∷ lit "me"
    ∷ lit "mil"
    ∷ lit "net"
    ∷ lit "ne"
    ∷ lit "nom"
    ∷ lit "or"
    ∷ lit "org"
    ∷ lit "plc"
    ∷ lit "sch"
    ∷ []

-- The last labels of a name: two, or three below a country's second level. The labels come with the
-- last one first.
abbrev pub root_of_labels : Text → List Text → Text
root_of_labels d [] = d
root_of_labels d (x ∷ []) = d
root_of_labels d (tld ∷ sld ∷ []) = join b'.' (sld ∷ tld ∷ [])
root_of_labels d (tld ∷ sld ∷ third ∷ rest) =
    if length tld == 2 && has sld common_country_second_levels
    then join b'.' (third ∷ sld ∷ tld ∷ [])
    else join b'.' (sld ∷ tld ∷ [])

module _ (net : Net) where
  unfoldable pub registrable_domain : Text → Text
  registrable_domain domain =
      let d = trim_suffix (lit ".") (trim_prefix (lit "*.") (normalize_server_name net domain)) in
      if is_nil d || is_some (bracketed_ip net d)
      then []
      else root_of_labels d (reverse (split b'.' d))

  unfoldable pub add_root : Text → List Text → List Text
  add_root root roots = if is_nil root then roots else add_once roots root

  unfoldable pub add_roots : List Text → List Text → List Text
  add_roots [] roots = roots
  add_roots (d ∷ ds) roots = add_roots ds (add_root (registrable_domain d) roots)

  unfoldable pub host_roots : List Host → List Text → List Text
  host_roots [] roots = roots
  host_roots (h ∷ hs) roots = host_roots hs (if h.enabled then add_roots h.domains roots else roots)

  unfoldable pub zent_loop_root_domains : List Host → List Text
  zent_loop_root_domains hosts = sort_texts (host_roots hosts [])

  add_root-Distinct :
      (root : Text) (roots : List Text) → Distinct roots → Distinct (add_root root roots)
  unfolding add_root
  add_root-Distinct root roots d = elim (Bool-cases (is_nil root)) [
    | inl e ↦ rw e d
    | inr e ↦ rw e (add_once-Distinct root roots d)
  ]

  add_roots-Distinct : (ds roots : List Text) → Distinct roots → Distinct (add_roots ds roots)
  unfolding add_roots
  add_roots-Distinct [] roots p = p
  add_roots-Distinct (d ∷ ds) roots p =
      add_roots-Distinct ds (add_root (registrable_domain d) roots)
        (add_root-Distinct (registrable_domain d) roots p)

  host_roots-Distinct :
      (hs : List Host) (roots : List Text) → Distinct roots → Distinct (host_roots hs roots)
  unfolding host_roots
  host_roots-Distinct [] roots p = p
  host_roots-Distinct (h ∷ hs) roots p = elim (Bool-cases h.enabled) [
    | inl e ↦
        rw e (
          host_roots-Distinct hs (add_roots h.domains roots) (add_roots-Distinct h.domains roots p))
    | inr e ↦ rw e (host_roots-Distinct hs roots p)
  ]

  -- The text is the root of a domain of an enabled host.
  abbrev pub IsRoot : Text → List Text → Type 0
  IsRoot root [] = ⊥
  IsRoot root (d ∷ ds) = ((root ≡ registrable_domain d) × (is_nil root ≡ false)) ⊎ IsRoot root ds

  abbrev pub IsRootOfHosts : Text → List Host → Type 0
  IsRootOfHosts root [] = ⊥
  IsRootOfHosts root (h ∷ hs) = ((h.enabled ≡ true) × IsRoot root h.domains) ⊎ IsRootOfHosts root hs

  In-add_root :
      (v root : Text) (roots : List Text)
      → In v (add_root root roots) ↔ (In v roots ⊎ ((v ≡ root) × (is_nil v ≡ false)))
  unfolding add_root
  In-add_root v root roots = elim (Bool-cases (is_nil root)) [
    | inl e ↦ rw e (
      λ i. inl i,
      λ h. elim h [
        | inl i ↦ i
        | inr (p, n) ↦ let q : is_nil v ≡ is_nil root = ap is_nil p in absurd (cc)
      ],
    )
    | inr e ↦ rw e (
      λ i. elim ((In-add_once v root roots).0 i) [
        | inl j ↦ inl j
        | inr p ↦ inr (p, ap is_nil p ∙ e)
      ],
      λ h. (In-add_once v root roots).1 (elim h [ inl j ↦ inl j | inr (p, n) ↦ inr p ]),
    )
  ]

  In-add_roots :
      (v : Text) (ds roots : List Text) → In v (add_roots ds roots) ↔ (In v roots ⊎ IsRoot v ds)
  unfolding add_roots
  In-add_roots v [] roots = ground arith
  In-add_roots v (d ∷ ds) roots = ground (
    arith,
    In-add_roots v ds (add_root (registrable_domain d) roots),
    In-add_root v (registrable_domain d) roots,
  )

  In-host_roots :
      (v : Text) (hs : List Host) (roots : List Text)
      → In v (host_roots hs roots) ↔ (In v roots ⊎ IsRootOfHosts v hs)
  unfolding host_roots
  In-host_roots v [] roots = ground arith
  In-host_roots v (h ∷ hs) roots = elim (Bool-cases h.enabled) [
    | inl e ↦ rw e (
        ground
          (arith, In-host_roots v hs (add_roots h.domains roots), In-add_roots v h.domains roots))
    | inr e ↦ rw e (ground (arith, In-host_roots v hs roots))
  ]

  -- The roots are sorted, each once, and they are those of the domains of the enabled hosts, but for
  -- the domains that have none.
  pub zent_loop_root_domains_lem :
      (hosts : List Host)
      → IsSorted (zent_loop_root_domains hosts)
        × Distinct (zent_loop_root_domains hosts)
        × ((v : Text) → In v (zent_loop_root_domains hosts) ↔ IsRootOfHosts v hosts)
  unfolding zent_loop_root_domains
  zent_loop_root_domains_lem hosts = (
    sort_texts-IsSorted (host_roots hosts []),
    sort_texts-Distinct (host_roots hosts []) (host_roots-Distinct hosts [] tt),
    λ v.
        let listed = In-sort_texts v (host_roots hosts []) in
        let roots = In-host_roots v hosts [] in
        (
          λ i. elim (roots.0 (listed.0 i)) [ inl n ↦ absurd n | inr r ↦ r ],
          λ r. listed.1 (roots.1 (inr r)),
        ),
  )

-- Opens the module for a test.
unfoldable pub roots : Unit {0}
unfolding common_country_second_levels registrable_domain add_root add_roots host_roots
    zent_loop_root_domains
roots = tt
