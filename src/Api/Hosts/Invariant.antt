-- ===== src/Api/Hosts/Invariant.antt =====
-- internal/api/server.go: proofs on the stored hosts under the guards and `hosts_create`.
pub mod Update
pub mod Run
use zent_proxy.Base.{
  ℕ, ◌-◌, ◌≡◌, refl, sym, ap, subst, ◌≢◌, inl, inr, Bool, true, false, Option, none, some, List, [],
  ◌∷◌, map, arith, Bool-cases, Option-cases, In, All, Text,
}
use zent_proxy.Model.{HostInput, Host}
use zent_proxy.Net.{Net}
use zent_proxy.Proxy.Hosts.{
  HostError, normalize_and_validate, check_domain_conflicts, conflict_key, input_of_host,
}
use zent_proxy.Proxy.Hosts.Accepted.{IsAccepted, normalize_and_validate-IsAccepted}
use zent_proxy.Proxy.Hosts.Conflicts.{NoneWanted, check_domain_conflicts_iff}
use zent_proxy.Strings.Sorting.{sort_by, In-sort_by}
use zent_proxy.Store.Rows.{find}
use zent_proxy.Api.Hosts.{
  activate_as, apply, check_references, conflict_reply, check_conflicts, or_reply, error_reply,
  objection, undo_create, finish_create, after_create, create_body,
}
use zent_proxy.Api.State.{
  Call, list_hosts, write_host, undo_write, Request, Outcome, activated, rejected, broken, Env,
  State, Reply, id_of, listed_before, host_of_input, insert_host, create_host, write_row,
  delete_row, add_audit, is_missing, update_host,
}
use zent_proxy.Api.Hosts.Sound.{IsSound, IsFree, IsSound-insert, IsSound-remove}
use zent_proxy.Api.Hosts.Sound.Kept.{IsSound-write}

In_All : (P : Host → Type 0) (a : Host) (xs : List Host) → All P xs → In a xs → P a
In_All P a [] h i = elim i [ ]
In_All P a (x ∷ xs) (p, h) (inl e) = subst P (sym e) p
In_All P a (x ∷ xs) (p, h) (inr i) = In_All P a xs h i

module _ (net : Net) (env : Env) where
  -- The hosts of a state are sound.
  abbrev pub IsSoundState : State → Type 0
  IsSoundState st = IsSound net st.hosts st.next_id

  activate_as-IsSound :
      (o : Outcome) (st : State) → IsSoundState st → IsSoundState (activate_as o st).0
  activate_as-IsSound Outcome.activated st s = s
  activate_as-IsSound Outcome.rejected st s = s
  activate_as-IsSound Outcome.broken st s = s

  pub apply-IsSound : (st : State) → IsSoundState st → IsSoundState (apply net env st).0
  unfolding apply
  apply-IsSound st s = activate_as-IsSound (env.activation st.activations st.hosts) st s

  -- What no objection to an input means.
  or_reply-none : (a b : Option Reply) → or_reply net env a b ≡ none → (a ≡ none) × (b ≡ none)
  or_reply-none none b p = (refl, p)
  or_reply-none (some e) b p = absurd (cc)

  error_reply-none : (e : Option HostError) → error_reply net env e ≡ none → e ≡ none
  error_reply-none none p = refl
  error_reply-none (some e) p = absurd (cc)

  conflict_reply-none : (c : Option (Text × Text)) → conflict_reply net env c ≡ none → c ≡ none
  conflict_reply-none none p = refl
  conflict_reply-none (some (d, name)) p = absurd (cc)

  check_conflicts-IsFree :
      (rq : Request) (in_ : HostInput) (id : ℕ) (st : State)
      → check_conflicts net env rq in_ id st ≡ none
      → IsFree net in_.domains id st.hosts
  unfolding check_conflicts
  check_conflicts-IsFree rq in_ id st p g i ne = elim (Bool-cases (rq.fails Call.list_hosts)) [
    | inl e ↦ absurd (cc)
    | inr e ↦
        let hosts = sort_by listed_before st.hosts in
        let found = conflict_reply-none (check_domain_conflicts hosts in_.domains id) (rw e at p) in
        In_All (λ (h : Host). h.id ≢ id → NoneWanted (map conflict_key in_.domains) h.domains) g
          hosts ((check_domain_conflicts_iff hosts in_.domains id).0 found)
          ((In-sort_by listed_before g st.hosts).1 i) ne
  ]

  -- An input that no guard objects to was accepted, and its domains are free.
  pub objection-inv :
      (rq : Request) (raw : HostInput) (id : ℕ) (st : State)
      → objection net env rq (normalize_and_validate net raw) id st ≡ none
      → IsAccepted net (normalize_and_validate net raw).0
        × IsFree net (normalize_and_validate net raw).0.domains id st.hosts
  unfolding objection
  objection-inv rq raw id st p =
      let found = normalize_and_validate net raw in
      let one =
        or_reply-none (error_reply net env found.1)
          (or_reply net env (check_references net env found.0)
            (check_conflicts net env rq found.0 id st))
          p in
      let two =
        or_reply-none (check_references net env found.0) (check_conflicts net env rq found.0 id st)
          one.1 in
      let ok : found.1 ≡ none = error_reply-none found.1 one.0 in
      (
        normalize_and_validate-IsAccepted net raw found.0
            (ap (λ (x : Option HostError). (found.0, x)) ok),
        check_conflicts-IsFree rq found.0 id st two.1,
      )

  insert-IsSound :
      (now : ℕ) (in_ : HostInput) (st : State)
      → IsSoundState st
      → IsAccepted net in_
      → IsFree net in_.domains 0 st.hosts
      → IsSoundState (insert_host now in_ st)
  unfolding insert_host host_of_input input_of_host
  insert-IsSound now in_ st s a f =
      IsSound-insert net st.hosts st.next_id (host_of_input st.next_id now now in_) s refl a
        (λ g i ne. f g i (let one = s.positive g i in omega arith))

  pub delete_row-IsSound : (id : ℕ) (st : State) → IsSoundState st → IsSoundState (delete_row id st)
  unfolding delete_row
  delete_row-IsSound id st s = IsSound-remove net st.hosts st.next_id id s

  pub write_row-IsSound :
      (id now : ℕ) (in_ : HostInput) (st : State)
      → IsSoundState st
      → IsAccepted net in_
      → IsFree net in_.domains id st.hosts
      → IsSoundState (write_row id now in_ st)
  unfolding write_row
  write_row-IsSound id now in_ st s a f = IsSound-write net st.hosts st.next_id id now in_ s a f

  create_host-IsSound :
      (rq : Request) (in_ : HostInput) (st : State)
      → IsSoundState st
      → IsAccepted net in_
      → IsFree net in_.domains 0 st.hosts
      → IsSoundState (create_host rq in_ st).0
  unfolding create_host
  create_host-IsSound rq in_ st s a f = elim (Bool-cases (rq.fails Call.write_host)) [
    | inl e ↦ rw e s
    | inr e ↦ rw e (insert-IsSound rq.now in_ st s a f)
  ]

  undo_create-IsSound :
      (rq : Request) (id : ℕ) (st : State)
      → IsSoundState st
      → IsSoundState (undo_create net env rq id st)
  unfolding undo_create
  undo_create-IsSound rq id st s = elim (Bool-cases (rq.fails Call.undo_write)) [
    | inl e ↦ rw e s
    | inr e ↦ rw e (delete_row-IsSound id st s)
  ]

  finish_create-IsSound :
      (rq : Request) (h : Host) (done : State × Bool)
      → IsSoundState done.0
      → IsSoundState (finish_create net env rq h done).0
  unfolding add_audit
  finish_create-IsSound rq h (st, true) s = s
  finish_create-IsSound rq h (st, false) s =
      apply-IsSound (undo_create net env rq h.id st) (undo_create-IsSound rq h.id st s)

  after_create-IsSound :
      (rq : Request) (made : State × Option Host)
      → IsSoundState made.0
      → IsSoundState (after_create net env rq made).0
  after_create-IsSound rq (st, none) s = s
  after_create-IsSound rq (st, some h) s =
      finish_create-IsSound rq h (apply net env st) (apply-IsSound st s)

  pub create_body-IsSound :
      (rq : Request) (st : State) (body : Option HostInput)
      → IsSoundState st
      → IsSoundState (create_body net env rq st body).0
  create_body-IsSound rq st none s = s
  create_body-IsSound rq st (some raw) s =
      let in_ = (normalize_and_validate net raw).0 in
      elim (Option-cases (objection net env rq (normalize_and_validate net raw) 0 st)) [
        | inl e ↦
            let (a, f) = objection-inv rq raw 0 st e in
            rw e (
              after_create-IsSound rq (create_host rq in_ st) (create_host-IsSound rq in_ st s a f))
        | inr (r, e) ↦ rw e s
      ]

  pub update_host-IsSound :
      (rq : Request) (id : ℕ) (in_ : HostInput) (st : State)
      → IsSoundState st
      → IsAccepted net in_
      → IsFree net in_.domains id st.hosts
      → IsSoundState (update_host rq id in_ st).0
  unfolding update_host
  update_host-IsSound rq id in_ st s a f = elim (Bool-cases (rq.fails Call.write_host)) [
    | inl e ↦ rw e s
    | inr e ↦ rw e (elim (Bool-cases (is_missing (find id_of id st.hosts))) [
      | inl g ↦ rw g s
      | inr g ↦ rw g (write_row-IsSound id rq.now in_ st s a f)
    ])
  ]
