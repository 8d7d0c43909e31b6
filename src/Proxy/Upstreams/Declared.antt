-- ===== src/Proxy/Upstreams/Declared.antt =====
-- internal/proxy/manager.go: proofs on the pools that are collected.
use zent_proxy.Base.{
  ◌≡◌, refl, sym, ap, ◌∙◌, subst, inl, inr, true, List, [], ◌∷◌, map, Bool-cases, In, All, Text,
}
use zent_proxy.Model.{CustomLocation, Host}
use zent_proxy.Net.{Net}
use zent_proxy.Strings.Equality.{text_eq, text_eq_iff}
use zent_proxy.Strings.Sorting.{In-sort_by}
use zent_proxy.Proxy.Upstreams.{
  ProxyUpstream, Target, effective_location_target, locations_of, put_pool, upstream_pool_identity,
  upstream_name, upstream_of, is_target, collect_locations, collect_hosts, name_le,
  collect_proxy_upstreams, pool_name,
}

abbrev Pools : Type 0
Pools = List (Text × ProxyUpstream)

module _ (net : Net) where
  -- A pool that some host's target was put as, under its identity.
  abbrev pub IsPoolOf : Text → ProxyUpstream → Type 0
  IsPoolOf k u =
      (h : Host) × (t : Target) × (k ≡ (upstream_pool_identity net h t).0)
      × (u ≡ upstream_of net h t)

  abbrev HasPool : Text → Pools → Type 0
  HasPool k m =
      (u : ProxyUpstream) × In u (map (λ (e : Text × ProxyUpstream). e.1) m) × IsPoolOf k u

  put-HasPool_self :
      (h : Host) (t : Target) (m : Pools)
      → HasPool
          (upstream_pool_identity net h t).0
          (put_pool (upstream_pool_identity net h t).0 (upstream_of net h t) m)
  unfolding put_pool
  put-HasPool_self h t [] = (upstream_of net h t, inl refl, (h, t, refl, refl))
  put-HasPool_self h t ((j, v) ∷ m) =
      elim (Bool-cases (text_eq j (upstream_pool_identity net h t).0)) [
        | inl e ↦ rw e (upstream_of net h t, inl refl, (h, t, refl, refl))
        | inr e ↦ rw e (let (u, i, p) = put-HasPool_self h t m in (u, inr i, p))
      ]

  -- The entries of the map are pools of their keys.
  abbrev IsPools : Pools → Type 0
  IsPools m = All (λ (e : Text × ProxyUpstream). IsPoolOf e.0 e.1) m

  put-IsPools :
      (h : Host) (t : Target) (m : Pools)
      → IsPools m
      → IsPools (put_pool (upstream_pool_identity net h t).0 (upstream_of net h t) m)
  unfolding put_pool
  put-IsPools h t [] a = ((h, t, refl, refl), tt)
  put-IsPools h t ((j, v) ∷ m) (p, a) =
      elim (Bool-cases (text_eq j (upstream_pool_identity net h t).0)) [
        | inl e ↦ rw e ((h, t, refl, refl), a)
        | inr e ↦ rw e (p, put-IsPools h t m a)
      ]

  abbrev HasKey : Text → Pools → Type 0
  HasKey k m = In k (map (λ (e : Text × ProxyUpstream). e.0) m)

  put-HasKey_self : (k : Text) (u : ProxyUpstream) (m : Pools) → HasKey k (put_pool k u m)
  unfolding put_pool
  put-HasKey_self k u [] = inl refl
  put-HasKey_self k u ((j, v) ∷ m) = elim (Bool-cases (text_eq j k)) [
    | inl e ↦ rw e (inl refl)
    | inr e ↦ rw e (inr (put-HasKey_self k u m))
  ]

  put-HasKey : (i k : Text) (u : ProxyUpstream) (m : Pools) → HasKey i m → HasKey i (put_pool k u m)
  unfolding put_pool
  put-HasKey i k u [] h = elim h [ ]
  put-HasKey i k u ((j, v) ∷ m) h = elim (Bool-cases (text_eq j k)) [
    | inl e ↦ rw e (elim h [ inl p ↦ inl (p ∙ (text_eq_iff j k).0 e) | inr q ↦ inr q ])
    | inr e ↦ rw e (elim h [ inl p ↦ inl p | inr q ↦ inr (put-HasKey i k u m q) ])
  ]

  abbrev identity_of : Host → CustomLocation → Text
  identity_of h loc = (upstream_pool_identity net h (effective_location_target h loc)).0

  locations-IsPools :
      (h : Host) (locs : List CustomLocation) (m : Pools)
      → IsPools m
      → IsPools (collect_locations net h locs m)
  unfolding collect_locations
  locations-IsPools h [] m a = a
  locations-IsPools h (loc ∷ locs) m a =
      elim (Bool-cases (is_target net (effective_location_target h loc))) [
        | inl e ↦
            rw e (locations-IsPools h locs _ (put-IsPools h (effective_location_target h loc) m a))
        | inr e ↦ rw e (locations-IsPools h locs m a)
      ]

  locations-HasKey :
      (h : Host) (locs : List CustomLocation) (i : Text) (m : Pools)
      → HasKey i m
      → HasKey i (collect_locations net h locs m)
  unfolding collect_locations
  locations-HasKey h [] i m k = k
  locations-HasKey h (loc ∷ locs) i m k =
      elim (Bool-cases (is_target net (effective_location_target h loc))) [
        | inl e ↦ rw e (locations-HasKey h locs i _ (put-HasKey i _ _ m k))
        | inr e ↦ rw e (locations-HasKey h locs i m k)
      ]

  locations-HasKey_self :
      (h : Host) (locs : List CustomLocation) (loc : CustomLocation) (m : Pools)
      → In loc locs
      → is_target net (effective_location_target h loc) ≡ true
      → HasKey (identity_of h loc) (collect_locations net h locs m)
  unfolding collect_locations
  locations-HasKey_self h [] loc m i e = elim i [ ]
  locations-HasKey_self h (l ∷ locs) loc m (inl p) e =
      let f : is_target net (effective_location_target h l) ≡ true =
        subst (λ x. is_target net (effective_location_target h x) ≡ true) p e in
      rw f (
        locations-HasKey h locs (identity_of h loc) _ (
          subst
            (λ x.
              HasKey (identity_of h x)
                (put_pool (identity_of h l) (upstream_of net h (effective_location_target h l)) m))
            (sym p) (put-HasKey_self (identity_of h l) _ m)))
  locations-HasKey_self h (l ∷ locs) loc m (inr i) e = locations-HasKey_self h locs loc _ i e

  hosts-IsPools : (hs : List Host) (m : Pools) → IsPools m → IsPools (collect_hosts net hs m)
  unfolding collect_hosts locations_of zent_proxy.Proxy.Upstreams.default_location collect_locations
      effective_location_target upstream_pool_identity upstream_of
      zent_proxy.Proxy.Upstreams.is_dynamic_sni upstream_name
  hosts-IsPools [] m a = a
  hosts-IsPools (h ∷ hs) m a = elim (Bool-cases h.enabled) [
    | inl e ↦ hosts-IsPools hs _ (rw e (locations-IsPools h (locations_of h) m a))
    | inr e ↦ hosts-IsPools hs _ (rw e a)
  ]

  hosts-HasKey :
      (hs : List Host) (i : Text) (m : Pools) → HasKey i m → HasKey i (collect_hosts net hs m)
  unfolding collect_hosts locations_of zent_proxy.Proxy.Upstreams.default_location collect_locations
      effective_location_target upstream_pool_identity upstream_of
      zent_proxy.Proxy.Upstreams.is_dynamic_sni upstream_name
  hosts-HasKey [] i m k = k
  hosts-HasKey (h ∷ hs) i m k = elim (Bool-cases h.enabled) [
    | inl e ↦ hosts-HasKey hs i _ (rw e (locations-HasKey h (locations_of h) i m k))
    | inr e ↦ hosts-HasKey hs i _ (rw e k)
  ]

  hosts-HasKey_self :
      (hs : List Host) (h : Host) (loc : CustomLocation) (m : Pools)
      → In h hs
      → h.enabled ≡ true
      → In loc (locations_of h)
      → is_target net (effective_location_target h loc) ≡ true
      → HasKey (identity_of h loc) (collect_hosts net hs m)
  unfolding collect_hosts locations_of zent_proxy.Proxy.Upstreams.default_location collect_locations
      effective_location_target upstream_pool_identity upstream_of
      zent_proxy.Proxy.Upstreams.is_dynamic_sni upstream_name
  hosts-HasKey_self [] h loc m i on j e = elim i [ ]
  hosts-HasKey_self (g ∷ hs) h loc m (inl p) on j e =
      let f : g.enabled ≡ true = subst (λ (x : Host). x.enabled ≡ true) p on in
      hosts-HasKey hs (identity_of h loc) _ (
        rw f (
          subst (λ x. HasKey (identity_of h loc) (collect_locations net x (locations_of x) m)) p
            (locations-HasKey_self h (locations_of h) loc m j e)))
  hosts-HasKey_self (g ∷ hs) h loc m (inr i) on j e = hosts-HasKey_self hs h loc _ i on j e

  pool_at :
      (k : Text) (m : Pools)
      → IsPools m
      → HasKey k m
      → (u : ProxyUpstream) × In u (map (λ (e : Text × ProxyUpstream). e.1) m) × IsPoolOf k u
  pool_at k [] a h = elim h [ ]
  pool_at k ((j, v) ∷ m) (p, a) (inl e) = (v, inl refl, subst (λ i. IsPoolOf i v) (sym e) p)
  pool_at k ((j, v) ∷ m) (p, a) (inr h) = let (u, i, q) = pool_at k m a h in (u, inr i, q)

  name_of : (k : Text) (u : ProxyUpstream) → IsPoolOf k u → u.name ≡ pool_name k
  unfolding upstream_of upstream_name
  name_of k u (h, t, e, f) = ap (λ (v : ProxyUpstream). v.name) f ∙ ap pool_name (sym e)

  -- Each location of an enabled host, the one for "/" too, that has a backend and a positive port
  -- has a pool among those that are collected. The pool bears the name that the location is sent
  -- to, and it was put for a location with the same identity.
  pub collect_proxy_upstreams-has :
      (hosts : List Host) (h : Host) (loc : CustomLocation)
      → In h hosts
      → h.enabled ≡ true
      → In loc (locations_of h)
      → is_target net (effective_location_target h loc) ≡ true
      → (u : ProxyUpstream) × In u (collect_proxy_upstreams net hosts)
        × (u.name ≡ upstream_name net h (effective_location_target h loc))
        × IsPoolOf (upstream_pool_identity net h (effective_location_target h loc)).0 u
  unfolding collect_proxy_upstreams upstream_name
  collect_proxy_upstreams-has hosts h loc i on j e =
      let (u, k, p) =
        pool_at (identity_of h loc) (collect_hosts net hosts []) (hosts-IsPools hosts [] tt)
          (hosts-HasKey_self hosts h loc [] i on j e) in
      (u, (In-sort_by (name_le net) u _).1 k, name_of _ u p, p)
