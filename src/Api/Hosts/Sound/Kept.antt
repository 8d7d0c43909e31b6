-- ===== src/Api/Hosts/Sound/Kept.antt =====
-- internal/db/store.go: proofs on the invariant of the stored hosts when a row is written.
use zent_proxy.Base.{ℕ, ◌≡◌, refl, sym, ap, ◌∙◌, subst, ◌≢◌, inl, inr, List, map, arith, In}
use zent_proxy.Model.{HostInput, Host}
use zent_proxy.Net.{Net}
use zent_proxy.Proxy.Hosts.{conflict_key, input_of_host}
use zent_proxy.Proxy.Hosts.Accepted.{IsAccepted}
use zent_proxy.Proxy.Hosts.Conflicts.{NoneWanted}
use zent_proxy.Store.Rows.{replace, In-replace}
use zent_proxy.Api.State.{id_of, host_of_input, updated_host}
use zent_proxy.Api.Hosts.Sound.{IsSound, IsFree, NoneWanted-sym}

module _ (net : Net) where
  -- A row of the changed table: an old one, or the one that was written.
  data Changed (hosts : List Host) (id now : ℕ) (in_ : HostInput) (g : Host) : Type 0 where
    old : In g hosts → g.id ≢ id → Changed hosts id now in_ g
    written :
        (h : Host)
        → In h hosts
        → h.id ≡ id
        → g ≡ updated_host now in_ h
        → Changed hosts id now in_ g

  changed :
      (hosts : List Host) (id now : ℕ) (in_ : HostInput) (g : Host)
      → In g (replace id_of id (updated_host now in_) hosts)
      → Changed hosts id now in_ g
  unfolding id_of
  changed hosts id now in_ g i = elim (In-replace id_of id (updated_host now in_) hosts g i) [
    | inl (j, n) ↦ old j n
    | inr (h, j, p, q) ↦ written h j p q
  ]

  updated_host_lem :
      (now : ℕ) (in_ : HostInput) (h : Host)
      → ((updated_host now in_ h).id ≡ h.id)
        × ((updated_host now in_ h).domains ≡ in_.domains)
        × (input_of_host (updated_host now in_ h) ≡ in_)
  unfolding updated_host host_of_input input_of_host
  updated_host_lem now in_ h = (refl, refl, refl)

  written-id : (now : ℕ) (in_ : HostInput) (g h : Host) → g ≡ updated_host now in_ h → g.id ≡ h.id
  written-id now in_ g h q = ap (λ (x : Host). x.id) q ∙ (updated_host_lem now in_ h).0

  written-domains :
      (now : ℕ) (in_ : HostInput) (g h : Host)
      → g ≡ updated_host now in_ h
      → in_.domains ≡ g.domains
  written-domains now in_ g h q =
      sym (ap (λ (x : Host). x.domains) q ∙ (updated_host_lem now in_ h).1)

  written-input :
      (now : ℕ) (in_ : HostInput) (g h : Host) → g ≡ updated_host now in_ h → in_ ≡ input_of_host g
  written-input now in_ g h q = sym (ap input_of_host q ∙ (updated_host_lem now in_ h).2)

  pub IsSound-write :
      (hosts : List Host) (n id now : ℕ) (in_ : HostInput)
      → IsSound net hosts n
      → IsAccepted net in_
      → IsFree net in_.domains id hosts
      → IsSound net (replace id_of id (updated_host now in_) hosts) n
  IsSound-write hosts n id now in_ s a f = record {
    accepted = λ g i. elim (changed hosts id now in_ g i) [
      | old j m ↦ s.accepted g j
      | written h j p q ↦ subst (IsAccepted net) (written-input now in_ g h q) a
    ];
    apart = λ g k i j ne. elim (changed hosts id now in_ g i) [
      | old ig m ↦ elim (changed hosts id now in_ k j) [
        | old ik l ↦ s.apart g k ig ik ne
        | written h jk p q ↦ NoneWanted-sym k.domains g.domains (
            subst (λ ds. NoneWanted (map conflict_key ds) g.domains) (written-domains now in_ k h q)
              (f g ig m))
      ]
      | written h jg p q ↦ elim (changed hosts id now in_ k j) [
        | old ik l ↦
            subst (λ ds. NoneWanted (map conflict_key ds) k.domains) (written-domains now in_ g h q)
              (f k ik l)
        | written e jk r t ↦
            let one = written-id now in_ g h q in
            let two = written-id now in_ k e t in absurd (ne (omega arith))
      ]
    ];
    unique = λ g k i j e. elim (changed hosts id now in_ g i) [
      | old ig m ↦ elim (changed hosts id now in_ k j) [
        | old ik l ↦ s.unique g k ig ik e
        | written h jk p q ↦ let two = written-id now in_ k h q in absurd (m (omega arith))
      ]
      | written h jg p q ↦ elim (changed hosts id now in_ k j) [
        | old ik l ↦ let one = written-id now in_ g h q in absurd (l (omega arith))
        | written d jk r t ↦
            q ∙ ap (updated_host now in_) (s.unique h d jg jk (omega arith)) ∙ sym t
      ]
    ];
    below = λ g i. elim (changed hosts id now in_ g i) [
      | old ig m ↦ s.below g ig
      | written h jg p q ↦
          let lt = s.below h jg in let one = written-id now in_ g h q in omega arith
    ];
    positive = λ g i. elim (changed hosts id now in_ g i) [
      | old ig m ↦ s.positive g ig
      | written h jg p q ↦
          let lt = s.positive h jg in let one = written-id now in_ g h q in omega arith
    ];
    started = s.started;
  }
