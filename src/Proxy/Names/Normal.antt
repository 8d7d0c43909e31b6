-- ===== src/Proxy/Names/Normal.antt =====
-- internal/proxy/manager.go: proofs on the normalisation of names.
use zent_proxy.Base.{
  ℕ, ◌≡◌, refl, ap, ◌∙◌, inl, inr, Bool, true, false, not, ◌&&◌, ◌||◌, Option, none, some, [], ◌∷◌,
  arith, if◌then◌else◌, Bool-cases, All, All_weaken, Text,
}
use zent_proxy.Net.{Net, is_ip_byte}
use zent_proxy.Strings.Equality.{text_eq}
use zent_proxy.Strings.Trim.{
  is_space, trim_left, trim_right, trim, keep, trim_space, trim_space_idem, to_lower, to_lower_idem,
  trim_space-to_lower,
}
use zent_proxy.Proxy.Names.{
  is_bracket, is_slash, or_ip, bracketed_ip, valid_forward_host, normalize_forward_host,
  normalize_server_name, is_some, hostname_re,
}
use zent_proxy.Regex.{full_match}
use zent_proxy.Strings.Trim.{is_nil}

module _ (cut : ℕ → Bool) where
  trim_left_of_All : (s : Text) → All (λ c. cut c ≡ false) s → trim_left cut s ≡ s
  unfolding trim_left
  trim_left_of_All [] h = refl
  trim_left_of_All (c ∷ s) (p, h) = rw p refl

  trim_right_of_All : (s : Text) → All (λ c. cut c ≡ false) s → trim_right cut s ≡ s
  unfolding trim_right
  trim_right_of_All [] h = refl
  trim_right_of_All (c ∷ s) (p, h) = ap (keep cut c) (trim_right_of_All s h) ∙ go s
    where
      go : (s : Text) → keep cut c s ≡ c ∷ s
      go [] = rw p refl
      go (d ∷ r) = refl

  -- A text with no byte of the set is not trimmed.
  pub trim_of_All : (s : Text) → All (λ c. cut c ≡ false) s → trim cut s ≡ s
  unfolding trim
  trim_of_All s h = ap (trim_right cut) (trim_left_of_All s h) ∙ trim_right_of_All s h

to_lower_of_All : (s : Text) → All (λ c. is_ip_byte c ≡ true) s → to_lower s ≡ s
unfolding to_lower is_ip_byte
to_lower_of_All [] h = refl
to_lower_of_All (c ∷ s) (p, h) = ground (arith, to_lower_of_All s h)

not_space : (c : ℕ) → is_ip_byte c ≡ true → is_space c ≡ false
unfolding is_ip_byte is_space
not_space c h = ground arith

not_bracket : (c : ℕ) → is_ip_byte c ≡ true → is_bracket c ≡ false
unfolding is_ip_byte is_bracket
not_bracket c h = ground arith

after : Net → Text → Bool
unfolding valid_forward_host
after net h = if is_nil h then false else full_match hostname_re h || is_some (bracketed_ip net h)

module _ (net : Net) where
  normalize_server_name_lem :
      (v : Text)
      → normalize_server_name net v
        ≡ or_ip net (bracketed_ip net (to_lower (trim_space v))) (to_lower (trim_space v))
  unfolding normalize_server_name
  normalize_server_name_lem v = refl

  -- A canonical address stays as it is.
  normalize_server_name-ip :
      (s t : Text) → net.parse_ip s ≡ some t → normalize_server_name net t ≡ t
  normalize_server_name-ip s t h =
      let plain = net.plain s t h in
      let spaces : trim_space t ≡ t =
        unfold trim_space in
        trim_of_All is_space t
          (All_weaken (λ c. is_ip_byte c ≡ true) (λ c. is_space c ≡ false) not_space t plain) in
      let brackets : bracketed_ip net t ≡ some t =
        unfold bracketed_ip in
        ap net.parse_ip (
          trim_of_All is_bracket t
            (All_weaken (λ c. is_ip_byte c ≡ true) (λ c. is_bracket c ≡ false) not_bracket t plain))
        ∙ net.canonical s t h in
      rw (normalize_server_name_lem t) (rw (spaces, to_lower_of_All t plain) (rw brackets refl))

  lowered-IsNormal :
      (v : Text) → to_lower (trim_space (to_lower (trim_space v))) ≡ to_lower (trim_space v)
  lowered-IsNormal v =
      ap to_lower (trim_space-to_lower (trim_space v))
      ∙ to_lower_idem (trim_space (trim_space v))
      ∙ ap to_lower (trim_space_idem v)

  -- A server name that is normalised stays as it is when it is normalised again.
  pub normalize_server_name_idem :
      (v : Text)
      → normalize_server_name net (normalize_server_name net v) ≡ normalize_server_name net v
  normalize_server_name_idem v =
      rw (normalize_server_name_lem v) (go (bracketed_ip net (to_lower (trim_space v))) refl)
    where
      go :
          (o : Option Text)
          → bracketed_ip net (to_lower (trim_space v)) ≡ o
          → normalize_server_name net (or_ip net o (to_lower (trim_space v)))
            ≡ or_ip net o (to_lower (trim_space v))
      go none e =
          rw (normalize_server_name_lem (to_lower (trim_space v)))
            (rw (lowered-IsNormal v) (rw e refl))
      go (some t) e =
          normalize_server_name-ip (trim is_bracket (to_lower (trim_space v))) t
            (unfold bracketed_ip in e)

  normalize_forward_host_lem :
      (raw : Text)
      → normalize_forward_host net raw ≡ (
          if valid_forward_host net (trim_space raw)
          then trim_space raw
          else if not (text_eq (trim_right is_slash (trim_space raw)) (trim_space raw))
              && valid_forward_host net (trim_right is_slash (trim_space raw))
          then trim_right is_slash (trim_space raw)
          else trim_space raw)
  unfolding normalize_forward_host
  normalize_forward_host_lem raw = refl

  valid_forward_host-trim_space :
      (h : Text) → valid_forward_host net (trim_space h) ≡ valid_forward_host net h
  unfolding valid_forward_host after
  valid_forward_host-trim_space h = ap (after net) (trim_space_idem h)

  normalize_forward_host_of_valid :
      (h : Text) → valid_forward_host net h ≡ true → normalize_forward_host net h ≡ trim_space h
  normalize_forward_host_of_valid h v =
      normalize_forward_host_lem h ∙ rw (valid_forward_host-trim_space h, v) refl

  -- To normalise the host of a backend a second time is to trim the result of the first time.
  pub normalize_forward_host_twice :
      (raw : Text)
      → normalize_forward_host net (normalize_forward_host net raw)
        ≡ trim_space (normalize_forward_host net raw)
  normalize_forward_host_twice raw = elim (Bool-cases (valid_forward_host net (trim_space raw))) [
    | inl v ↦
        let e : normalize_forward_host net raw ≡ trim_space raw =
          normalize_forward_host_lem raw ∙ rw v refl in
        rw e (normalize_forward_host_of_valid (trim_space raw) v)
    | inr n ↦
        go n
          (not (text_eq (trim_right is_slash (trim_space raw)) (trim_space raw))
            && valid_forward_host net (trim_right is_slash (trim_space raw)))
          refl
  ]
    where
      candidate : Text
      candidate = trim_right is_slash (trim_space raw)

      go :
          valid_forward_host net (trim_space raw) ≡ false
          → (b : Bool)
          → (not (text_eq candidate (trim_space raw)) && valid_forward_host net candidate) ≡ b
          → normalize_forward_host net (normalize_forward_host net raw)
            ≡ trim_space (normalize_forward_host net raw)
      go n true e =
          let f : normalize_forward_host net raw ≡ candidate =
            normalize_forward_host_lem raw ∙ rw (n, e) refl in
          rw f (normalize_forward_host_of_valid candidate (ground arith))
      go n false e =
          let f : normalize_forward_host net raw ≡ trim_space raw =
            normalize_forward_host_lem raw ∙ rw (n, e) refl in
          rw f (
            normalize_forward_host_lem (trim_space raw) ∙ rw (trim_space_idem raw) (rw (n, e) refl))
