-- ===== src/Proxy/Upstreams/Identity.antt =====
-- internal/proxy/manager.go: proofs on the identities of pools.
use zent_proxy.Base.{
  ℕ, ◌+◌, ◌<◌, ◌≡◌, refl, sym, ap, ◌∙◌, ◌≢◌, inl, inr, true, false, List, [], ◌∷◌, ◌++◌, arith,
  if◌then◌else◌, Bool-cases, All, All_weaken, Text, lit,
}
use zent_proxy.Base.Int.{ℤ, pos, negsuc}
use zent_proxy.Model.{Host}
use zent_proxy.Net.{Net}
use zent_proxy.Strings.Trim.{is_space, trim_space, to_lower, lower_byte, All-trim}
use zent_proxy.Strings.Split.{split, join, Lacks, split-join}
use zent_proxy.Strings.Decimal.{itoa, itoa_inj, IsDigit, itoa-IsDigit}
use zent_proxy.Proxy.Upstreams.{Target, itoa_int, is_dynamic_sni, pool_base, upstream_pool_identity}

IsDigit-ne : (k : ℕ) → (c : ℕ) → 57 < k → IsDigit c → c ≢ k
IsDigit-ne k c h (p, q) e = absurd (omega arith)

itoa-Lacks : (n : ℕ) → Lacks b'|' (itoa n)
itoa-Lacks n =
    All_weaken IsDigit (λ c. c ≢ b'|') (λ c d. IsDigit-ne b'|' c (omega arith) d) (itoa n)
      (itoa-IsDigit n)

itoa_int-Lacks : (v : ℤ) → Lacks b'|' (itoa_int v)
unfolding itoa_int
itoa_int-Lacks (pos n) = itoa-Lacks n
itoa_int-Lacks (negsuc n) = (ground arith, itoa-Lacks (n + 1))

-- The sign tells a negative number from the others.
minus-ne : (s t : Text) → All IsDigit s → b'-' ∷ t ≢ s
minus-ne [] t h e = cc
minus-ne (c ∷ s) t (p, h) e = ground arith

itoa_int_inj : (v w : ℤ) → itoa_int v ≡ itoa_int w → v ≡ w
unfolding itoa_int
itoa_int_inj (pos m) (pos n) e = ap pos (itoa_inj m n e)
itoa_int_inj (pos m) (negsuc n) e =
    absurd (minus-ne (itoa m) (itoa (n + 1)) (itoa-IsDigit m) (sym e))
itoa_int_inj (negsuc m) (pos n) e = absurd (minus-ne (itoa n) (itoa (m + 1)) (itoa-IsDigit n) e)
itoa_int_inj (negsuc m) (negsuc n) e =
    let f : m + 1 ≡ n + 1 = itoa_inj (m + 1) (n + 1) (cc) in
    let g : m ≡ n = omega arith in ap negsuc g

lower_byte-ne : (c : ℕ) → c ≢ b'|' → lower_byte c ≢ b'|'
unfolding lower_byte
lower_byte-ne c h = ground arith

lower-Lacks : (s : Text) → Lacks b'|' s → Lacks b'|' (to_lower s)
unfolding to_lower
lower-Lacks [] h = tt
lower-Lacks (c ∷ s) (p, h) = (lower_byte-ne c p, lower-Lacks s h)

key-Lacks : (s : Text) → Lacks b'|' s → Lacks b'|' (to_lower (trim_space s))
unfolding trim_space
key-Lacks s h = lower-Lacks (trim_space s) (All-trim is_space (λ c. c ≢ b'|') s h)

-- A target whose texts hold no "|", as those of accepted hosts do.
pub record HasNoBar (t : Target) : Type 0 where
  pub scheme : Lacks b'|' t.scheme
  pub host : Lacks b'|' t.host

-- Two targets reach one backend: scheme and host are equal but for case and blanks at the ends.
pub record SameBackend (s t : Target) : Type 0 where
  pub scheme : to_lower (trim_space s.scheme) ≡ to_lower (trim_space t.scheme)
  pub host : to_lower (trim_space s.host) ≡ to_lower (trim_space t.host)
  pub port : s.port ≡ t.port

module _ (net : Net) where
  -- The parts that an identity is joined of.
  parts : Host → Target → List Text
  parts h t =
      if is_dynamic_sni net h t
      then pool_base net t ++ (lit "dynamic-sni" ∷ (lit "host:" ++ itoa h.id) ∷ [])
      else pool_base net t

  identity-join :
      (h : Host) (t : Target) → (upstream_pool_identity net h t).0 ≡ join b'|' (parts h t)
  unfolding upstream_pool_identity parts
  identity-join h t = ground arith

  literal-Lacks : Lacks b'|' (lit "dynamic-sni")
  unfolding lit
  literal-Lacks = omega arith

  suffix-Lacks : (h : Host) → Lacks b'|' (lit "host:" ++ itoa h.id)
  unfolding lit
  suffix-Lacks h =
      (omega arith, (omega arith, (omega arith, (omega arith, (omega arith, itoa-Lacks h.id)))))

  parts_dynamic :
      (h : Host) (t : Target)
      → is_dynamic_sni net h t ≡ true
      → parts h t ≡ pool_base net t ++ (lit "dynamic-sni" ∷ (lit "host:" ++ itoa h.id) ∷ [])
  unfolding parts
  parts_dynamic h t e = rw e refl

  parts_static :
      (h : Host) (t : Target) → is_dynamic_sni net h t ≡ false → parts h t ≡ pool_base net t
  unfolding parts
  parts_static h t e = rw e refl

  split-parts :
      (h : Host) (t : Target) → HasNoBar t → split b'|' (join b'|' (parts h t)) ≡ parts h t
  unfolding pool_base
  split-parts h t b = elim (Bool-cases (is_dynamic_sni net h t)) [
    | inl e ↦ rw (parts_dynamic h t e) (
        split-join b'|' _ _ (key-Lacks t.scheme b.scheme)
          (key-Lacks t.host b.host, (itoa_int-Lacks t.port, (literal-Lacks, (suffix-Lacks h, tt)))))
    | inr e ↦ rw (parts_static h t e) (
        split-join b'|' _ _ (key-Lacks t.scheme b.scheme)
          (key-Lacks t.host b.host, (itoa_int-Lacks t.port, tt)))
  ]

  parts_inj :
      (g h : Host) (s t : Target)
      → parts g s ≡ parts h t
      → SameBackend s t
        × (is_dynamic_sni net g s ≡ is_dynamic_sni net h t)
        × (is_dynamic_sni net g s ≡ true → g.id ≡ h.id)
  unfolding parts pool_base lit
  parts_inj g h s t e = ground (arith, itoa_int_inj s.port t.port, itoa_inj g.id h.id)

  -- Equal identities of targets without "|" are those of one backend, and of hosts that agree on
  -- whether the name for TLS varies with the request; if it does they are one host.
  pub upstream_pool_identity_inj :
      (g h : Host) (s t : Target)
      → HasNoBar s
      → HasNoBar t
      → (upstream_pool_identity net g s).0 ≡ (upstream_pool_identity net h t).0
      → SameBackend s t
        × (is_dynamic_sni net g s ≡ is_dynamic_sni net h t)
        × (is_dynamic_sni net g s ≡ true → g.id ≡ h.id)
  upstream_pool_identity_inj g h s t bs bt e = parts_inj g h s t (
      sym (split-parts g s bs)
      ∙ ap (split b'|') (sym (identity-join g s) ∙ e ∙ identity-join h t)
      ∙ split-parts h t bt)
