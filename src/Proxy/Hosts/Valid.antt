-- ===== src/Proxy/Hosts/Valid.antt =====
-- internal/proxy/manager.go: what a valid host is, stated without the order of the checks.
use zent_proxy.Base.{
  ◌≤◌, ◌≡◌, sym, ◌≢◌, ◌↔◌, ◌⊎◌, inl, inr, true, false, none, List, [], ◌∷◌, map, arith, length, In,
  All, Text, lit,
}
use zent_proxy.Base.Int.{between}
use zent_proxy.Model.{CustomLocation, HostInput}
use zent_proxy.Net.{Net}
use zent_proxy.Strings.Equality.{text_eq_iff, has_iff, Distinct}
use zent_proxy.Strings.Trim.{is_nil_iff, trim_space}
use zent_proxy.Proxy.Names.{valid_forward_host, normalize_server_name, valid_server_name}
use zent_proxy.Proxy.Hosts.{
  is_web_scheme, bad_location_path, bad_location_forward, location_host_of, location_port_of,
  validate_custom_location, check_domains, check_locations, validate_host,
}

abbrev pub IsWebScheme : Text → Type 0
IsWebScheme s = (s ≡ lit "http") ⊎ (s ≡ lit "https")

module _ (net : Net) where
  -- A location under the host: its path is a path other than "/" with no byte that nginx reads,
  -- and what it inherits is valid where it gives nothing of its own.
  pub record IsValidLocation (parent : HostInput) (loc : CustomLocation) : Type 0 where
    pub path : bad_location_path (trim_space loc.path) ≡ false
    pub scheme : IsWebScheme loc.scheme
    pub host : valid_forward_host net (location_host_of loc parent) ≡ true
    pub port : between 1 65535 (location_port_of loc parent) ≡ true
    pub forward : bad_location_forward (trim_space loc.forward_path) ≡ false

  pub record IsValidHost (in_ : HostInput) : Type 0 where
    pub named : trim_space in_.name ≢ []
    pub short : length (trim_space in_.name) ≤ 120
    pub some_domain : in_.domains ≢ []
    pub few_domains : length in_.domains ≤ 50
    pub domains : All (λ d. valid_server_name net (normalize_server_name net d) ≡ true) in_.domains
    pub distinct_domains : Distinct (map (normalize_server_name net) in_.domains)
    pub scheme : IsWebScheme in_.scheme
    pub port : between 1 65535 in_.forward_port ≡ true
    pub host : valid_forward_host net (trim_space in_.forward_host) ≡ true
    pub few_locations : length in_.custom_locations ≤ 50
    pub locations : All (IsValidLocation in_) in_.custom_locations
    pub distinct_paths :
        Distinct (map (λ (l : CustomLocation). trim_space l.path) in_.custom_locations)

  is_web_scheme_iff : (s : Text) → (is_web_scheme s ≡ true) ↔ IsWebScheme s
  unfolding is_web_scheme
  is_web_scheme_iff s = ground (arith, text_eq_iff s (lit "http"), text_eq_iff s (lit "https"))

  validate_custom_location_iff :
      (loc : CustomLocation) (parent : HostInput)
      → (validate_custom_location net loc parent ≡ none) ↔ IsValidLocation parent loc
  unfolding validate_custom_location
  validate_custom_location_iff loc parent = ground (arith, is_web_scheme_iff loc.scheme)

  -- No text of the first list stands in the second.
  abbrev Apart : List Text → List Text → Type 0
  Apart xs seen = All (λ x. ¬ In x seen) xs

  Apart-cons : (d : Text) (xs seen : List Text) → Apart xs (d ∷ seen) ↔ (Apart xs seen × ¬ In d xs)
  Apart-cons d [] seen = ground arith
  Apart-cons d (x ∷ xs) seen =
      let (to, from) = Apart-cons d xs seen in
      (
        λ h. (
          (λ i. h.0 (inr i), (to h.1).0),
          λ o. elim o [ inl e ↦ h.0 (inl (sym e)) | inr i ↦ (to h.1).1 i ],
        ),
        λ h. (
          λ o. elim o [ inl e ↦ h.1 (inl (sym e)) | inr i ↦ h.0.0 i ],
          from (h.0.1, λ i. h.1 (inr i)),
        ),
      )

  check_domains_iff :
      (seen ds : List Text)
      → (check_domains net seen ds ≡ none) ↔ (
          All (λ d. valid_server_name net (normalize_server_name net d) ≡ true) ds
          × Apart (map (normalize_server_name net) ds) seen
          × Distinct (map (normalize_server_name net) ds))
  unfolding check_domains
  check_domains_iff seen [] = ground arith
  check_domains_iff seen (raw ∷ ds) = ground (
    arith,
    check_domains_iff (normalize_server_name net raw ∷ seen) ds,
    has_iff (normalize_server_name net raw) seen,
    Apart-cons (normalize_server_name net raw) (map (normalize_server_name net) ds) seen,
  )

  check_locations_iff :
      (parent : HostInput) (seen : List Text) (locs : List CustomLocation)
      → (check_locations net parent seen locs ≡ none) ↔ (
          All (IsValidLocation parent) locs
          × Apart (map (λ (l : CustomLocation). trim_space l.path) locs) seen
          × Distinct (map (λ (l : CustomLocation). trim_space l.path) locs))
  unfolding check_locations
  check_locations_iff parent seen [] = ground arith
  check_locations_iff parent seen (loc ∷ locs) = ground (
    arith,
    check_locations_iff parent (trim_space loc.path ∷ seen) locs,
    validate_custom_location_iff loc parent,
    has_iff (trim_space loc.path) seen,
    Apart-cons (trim_space loc.path) (map (λ (l : CustomLocation). trim_space l.path) locs) seen,
  )

  Apart-nil : (xs : List Text) → Apart xs []
  Apart-nil [] = tt
  Apart-nil (x ∷ xs) = (λ h. h, Apart-nil xs)

  -- `validate_host` accepts a host exactly if it is valid.
  pub validate_host_iff : (in_ : HostInput) → (validate_host net in_ ≡ none) ↔ IsValidHost in_
  unfolding validate_host
  validate_host_iff in_ = ground (
    arith,
    is_nil_iff (trim_space in_.name),
    check_domains_iff [] in_.domains,
    is_web_scheme_iff in_.scheme,
    check_locations_iff in_ [] in_.custom_locations,
    Apart-nil (map (normalize_server_name net) in_.domains),
    Apart-nil (map (λ (l : CustomLocation). trim_space l.path) in_.custom_locations),
  )
