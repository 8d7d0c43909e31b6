-- ===== src/Api/Hosts/Invariant/Update.antt =====
-- internal/api/server.go: proofs on the stored hosts under `host_update`.
use zent_proxy.Base.{
  ℕ, ◌≡◌, refl, sym, ap, ◌∙◌, inl, inr, Bool, true, false, Option, none, some, arith, Bool-cases,
  Option-cases, In,
}
use zent_proxy.Model.{HostInput, Host}
use zent_proxy.Net.{Net}
use zent_proxy.Proxy.Hosts.{normalize_and_validate, input_of_host}
use zent_proxy.Proxy.Hosts.Accepted.{IsAccepted}
use zent_proxy.Store.Rows.{find, find-inv, In-replace}
use zent_proxy.Api.Hosts.{
  activate_as, apply, objection, undo_update, finish_update, after_update, update_row, update_body,
}
use zent_proxy.Api.State.{
  Call, Request, Outcome, Env, State, id_of, host_of_input, updated_host, write_row, add_audit, Row,
  row_of, get_host, is_missing, update_host,
}
use zent_proxy.Api.Hosts.Sound.{IsFree}
use zent_proxy.Api.Hosts.Invariant.{
  update_host-IsSound, write_row-IsSound, objection-inv, apply-IsSound, IsSoundState,
}

module _ (net : Net) (env : Env) where
  updated_host-id : (now : ℕ) (in_ : HostInput) (h : Host) → (updated_host now in_ h).id ≡ h.id
  unfolding updated_host host_of_input
  updated_host-id now in_ h = refl

  -- The row can be written back.
  abbrev Undoable : Host → State → Type 0
  Undoable old st = IsAccepted net (input_of_host old) × IsFree net old.domains old.id st.hosts

  activate_as-Undoable :
      (old : Host) (o : Outcome) (st : State) → Undoable old st → Undoable old (activate_as o st).0
  activate_as-Undoable old Outcome.activated st u = u
  activate_as-Undoable old Outcome.rejected st u = u
  activate_as-Undoable old Outcome.broken st u = u

  apply-Undoable : (old : Host) (st : State) → Undoable old st → Undoable old (apply net env st).0
  unfolding apply
  apply-Undoable old st u = activate_as-Undoable old (env.activation st.activations st.hosts) st u

  write_row-Undoable :
      (id now : ℕ) (in_ : HostInput) (st : State) (old : Host)
      → IsSoundState net env st
      → In old st.hosts
      → old.id ≡ id
      → Undoable old (write_row id now in_ st)
  unfolding write_row id_of
  write_row-Undoable id now in_ st old s i p = (
    s.accepted old i,
    λ g j ne. elim (In-replace id_of id (updated_host now in_) st.hosts g j) [
      | inl (k, m) ↦ s.apart old g i k (λ q. ne (sym q))
      | inr (h, k, q, r) ↦
          let same : g.id ≡ h.id = ap (λ (x : Host). x.id) r ∙ updated_host-id now in_ h in
          absurd (ne (omega arith))
    ],
  )

  update_host-Undoable :
      (rq : Request) (id : ℕ) (in_ : HostInput) (st : State) (old : Host)
      → IsSoundState net env st
      → In old st.hosts
      → old.id ≡ id
      → Undoable old (update_host rq id in_ st).0
  unfolding update_host
  update_host-Undoable rq id in_ st old s i p =
      let as_is : Undoable old st =
        (s.accepted old i, λ g j ne. s.apart old g i j (λ q. ne (sym q))) in
      elim (Bool-cases (rq.fails Call.write_host)) [
        | inl e ↦ rw e as_is
        | inr e ↦ rw e (elim (Bool-cases (is_missing (find id_of id st.hosts))) [
          | inl g ↦ rw g as_is
          | inr g ↦ rw g (write_row-Undoable id rq.now in_ st old s i p)
        ])
      ]

  undo_update-IsSound :
      (rq : Request) (old : Host) (st : State)
      → IsSoundState net env st
      → Undoable old st
      → IsSoundState net env (undo_update net env rq old st)
  unfolding undo_update input_of_host
  undo_update-IsSound rq old st s (a, f) = elim (Bool-cases (rq.fails Call.undo_write)) [
    | inl e ↦ rw e s
    | inr e ↦ rw e (write_row-IsSound net env old.id rq.now (input_of_host old) st s a f)
  ]

  finish_update-IsSound :
      (rq : Request) (old h : Host) (done : State × Bool)
      → IsSoundState net env done.0
      → Undoable old done.0
      → IsSoundState net env (finish_update net env rq old h done).0
  unfolding add_audit
  finish_update-IsSound rq old h (st, true) s u = s
  finish_update-IsSound rq old h (st, false) s u =
      apply-IsSound net env (undo_update net env rq old st) (undo_update-IsSound rq old st s u)

  after_update-IsSound :
      (rq : Request) (old : Host) (done : State × Row)
      → IsSoundState net env done.0
      → Undoable old done.0
      → IsSoundState net env (after_update net env rq old done).0
  after_update-IsSound rq old (st, Row.missing) s u = s
  after_update-IsSound rq old (st, Row.failed) s u = s
  after_update-IsSound rq old (st, Row.row h) s u =
      finish_update-IsSound rq old h (apply net env st) (apply-IsSound net env st s)
        (apply-Undoable old st u)

  -- What reading a row gives is a stored row of that id.
  row_of-inv : (o : Option Host) (h : Host) → row_of o ≡ Row.row h → o ≡ some h
  row_of-inv none h p = absurd (cc)
  row_of-inv (some g) h p = let q : g ≡ h = ground arith in ap some q

  pub get_host-inv :
      (fails : Bool) (id : ℕ) (st : State) (h : Host)
      → get_host fails id st ≡ Row.row h
      → In h st.hosts × (h.id ≡ id)
  unfolding get_host id_of
  get_host-inv true id st h p = absurd (cc)
  get_host-inv false id st h p =
      find-inv id_of id st.hosts h (row_of-inv (find id_of id st.hosts) h p)

  update_row-IsSound :
      (rq : Request) (id : ℕ) (in_ : HostInput) (st : State) (r : Row)
      → get_host (rq.fails Call.read_host) id st ≡ r
      → IsSoundState net env st
      → IsAccepted net in_
      → IsFree net in_.domains id st.hosts
      → IsSoundState net env (update_row net env rq id in_ st r).0
  update_row-IsSound rq id in_ st Row.missing p s a f = s
  update_row-IsSound rq id in_ st Row.failed p s a f = s
  update_row-IsSound rq id in_ st (Row.row old) p s a f =
      let (i, q) = get_host-inv (rq.fails Call.read_host) id st old p in
      after_update-IsSound rq old (update_host rq id in_ st)
        (update_host-IsSound net env rq id in_ st s a f)
        (update_host-Undoable rq id in_ st old s i q)

  pub update_body-IsSound :
      (rq : Request) (st : State) (path_id : Option ℕ) (body : Option HostInput)
      → IsSoundState net env st
      → IsSoundState net env (update_body net env rq st path_id body).0
  update_body-IsSound rq st none body s = s
  update_body-IsSound rq st (some id) none s = s
  update_body-IsSound rq st (some id) (some raw) s =
      let in_ = (normalize_and_validate net raw).0 in
      elim (Option-cases (objection net env rq (normalize_and_validate net raw) id st)) [
        | inl e ↦
            let (a, f) = objection-inv net env rq raw id st e in
            rw e (
              update_row-IsSound rq id in_ st (get_host (rq.fails Call.read_host) id st) refl s a f)
        | inr (r, e) ↦ rw e s
      ]
