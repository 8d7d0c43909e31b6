-- ===== src/Api/Hosts/Rollback/Update.antt =====
-- internal/api/server.go: proofs on the undoing of an update.
use zent_proxy.Base.{
  ℕ, ◌≡◌, refl, ap, ◌∙◌, subst, inl, inr, Bool, true, false, Option, none, some, List, [], ◌∷◌, map,
  arith, ◌==◌, if◌then◌else◌, Bool-cases, Option-cases, In,
}
use zent_proxy.Model.{HostInput, Host}
use zent_proxy.Net.{Net}
use zent_proxy.Proxy.Hosts.{normalize_and_validate, input_of_host}
use zent_proxy.Store.Rows.{find, replace, find-replace}
use zent_proxy.Api.Hosts.{
  apply, objection, undo_update, finish_update, after_update, update_row, update_body, host_update,
}
use zent_proxy.Api.State.{
  Call, Request, Env, State, id_of, host_of_input, updated_host, write_row, Row, get_host,
  update_host,
}
use zent_proxy.Api.Hosts.Effects.{succeeded}
use zent_proxy.Api.Hosts.Sound.{IsSound}
use zent_proxy.Api.Hosts.Invariant.Update.{get_host-inv}
use zent_proxy.Api.Hosts.Rollback.{undated, apply-hosts}

module _ (net : Net) (env : Env) where
  -- one row of a table that was written and written back
  written_row :
      (h : Host) (now : ℕ) (in_ : HostInput) (old : Host)
      → (h.id ≡ old.id → h ≡ old)
      → (w : Host) → (if id_of h == old.id then updated_host now in_ h else h) ≡ w
      → undated (if id_of w == old.id then updated_host now (input_of_host old) w else w)
        ≡ undated h
  unfolding id_of updated_host host_of_input input_of_host
  written_row h now in_ old u w p = elim (Bool-cases (h.id == old.id)) [
    | inl e ↦
        let q : h ≡ old = u (ground arith) in
        subst
          (λ (x : Host).
            undated (if x.id == old.id then updated_host now (input_of_host old) x else x)
            ≡ undated h)
          (rw e at p)
          (rw e (
            subst
              (λ (x : Host).
                undated (updated_host now (input_of_host x) (updated_host now in_ h)) ≡ undated h)
              q refl))
    | inr e ↦
        subst
          (λ (x : Host).
            undated (if x.id == old.id then updated_host now (input_of_host old) x else x)
            ≡ undated h)
          (rw e at p) (rw e refl)
  ]

  written_back :
      (rows : List Host) (now : ℕ) (in_ : HostInput) (old : Host)
      → ((h : Host) → In h rows → h.id ≡ old.id → h ≡ old)
      → map undated (
          replace id_of old.id
            (updated_host now (input_of_host old))
            (replace id_of old.id (updated_host now in_) rows))
        ≡ map undated rows
  unfolding replace
  written_back [] now in_ old u = refl
  written_back (h ∷ rows) now in_ old u = cc (
    written_row h now in_ old (u h (inl refl))
        (if id_of h == old.id then updated_host now in_ h else h) refl,
    written_back rows now in_ old (λ g i. u g (inr i)),
  )

  -- The stored rows but for the times of their last changes.
  abbrev SameRows : State → State → Type 0
  SameRows a b = map undated a.hosts ≡ map undated b.hosts

  undo_update-rows :
      (rq : Request) (old : Host) (st : State)
      → rq.fails Call.undo_write ≡ false
      → (undo_update net env rq old st).hosts
        ≡ replace id_of old.id (updated_host rq.now (input_of_host old)) st.hosts
  unfolding undo_update write_row
  undo_update-rows rq old st u = rw u refl

  finish_update-rows :
      (rq : Request) (old h : Host) (done : State × Bool)
      → rq.fails Call.undo_write ≡ false
      → succeeded (finish_update net env rq old h done).1 ≡ false
      → (finish_update net env rq old h done).0.hosts
        ≡ replace id_of old.id (updated_host rq.now (input_of_host old)) done.0.hosts
  unfolding succeeded
  finish_update-rows rq old h (st, true) u p = absurd (cc)
  finish_update-rows rq old h (st, false) u p =
      apply-hosts net env (undo_update net env rq old st) ∙ undo_update-rows rq old st u

  write_row-undone :
      (rq : Request) (old h : Host) (in_ : HostInput) (st : State)
      → IsSound net st.hosts st.next_id
      → In old st.hosts
      → rq.fails Call.undo_write ≡ false
      → succeeded
          (finish_update net env rq old h (apply net env (write_row old.id rq.now in_ st))).1
        ≡ false
      → SameRows
          (finish_update net env rq old h (apply net env (write_row old.id rq.now in_ st))).0
          st
  unfolding write_row
  write_row-undone rq old h in_ st s i u p =
      let st2 = write_row old.id rq.now in_ st in
      ap (map undated) (finish_update-rows rq old h (apply net env st2) u p)
      ∙ ap
          (λ rows.
            map undated (replace id_of old.id (updated_host rq.now (input_of_host old)) rows))
          (apply-hosts net env st2)
      ∙ written_back st.hosts rq.now in_ old (λ g j q. s.unique g old j i q)

  -- The row that was written is read back.
  get_host-write_row :
      (id now : ℕ) (in_ : HostInput) (st : State) (a : Host)
      → find id_of id st.hosts ≡ some a
      → (h : Host) × (get_host false id (write_row id now in_ st) ≡ Row.row h)
  unfolding get_host write_row id_of updated_host host_of_input
  get_host-write_row id now in_ st a p =
      let (h, q) = find-replace id_of id (updated_host now in_) st.hosts a (λ b. refl) p in
      (h, rw q refl)

  after_update-rows :
      (rq : Request) (old : Host) (in_ : HostInput) (st : State)
      → IsSound net st.hosts st.next_id
      → In old st.hosts
      → rq.fails Call.read_back ≡ false
      → rq.fails Call.undo_write ≡ false
      → succeeded (after_update net env rq old (update_host rq old.id in_ st)).1 ≡ false
      → SameRows (after_update net env rq old (update_host rq old.id in_ st)).0 st
  unfolding update_host
  after_update-rows rq old in_ st s i b u = elim (Bool-cases (rq.fails Call.write_host)) [
    | inl e ↦ rw e (λ p. refl)
    | inr e ↦ elim (Option-cases (find id_of old.id st.hosts)) [
      | inl f ↦ rw e (rw f (λ p. refl))
      | inr (a, f) ↦
          let (h, q) = get_host-write_row old.id rq.now in_ st a f in
          rw e (rw b (rw f (rw q (write_row-undone rq old h in_ st s i u))))
    ]
  ]

  update_row-rows :
      (rq : Request) (id : ℕ) (in_ : HostInput) (st : State) (r : Row)
      → get_host (rq.fails Call.read_host) id st ≡ r
      → IsSound net st.hosts st.next_id
      → rq.fails Call.read_back ≡ false
      → rq.fails Call.undo_write ≡ false
      → succeeded (update_row net env rq id in_ st r).1 ≡ false
      → SameRows (update_row net env rq id in_ st r).0 st
  update_row-rows rq id in_ st Row.missing g s b u p = refl
  update_row-rows rq id in_ st Row.failed g s b u p = refl
  update_row-rows rq id in_ st (Row.row old) g s b u p =
      let (i, same) = get_host-inv net env (rq.fails Call.read_host) id st old g in
      (subst
          (λ k.
            succeeded (after_update net env rq old (update_host rq k in_ st)).1 ≡ false
            → SameRows (after_update net env rq old (update_host rq k in_ st)).0 st)
          same (after_update-rows rq old in_ st s i b u))
        p

  update_body-rows :
      (rq : Request) (st : State) (id : Option ℕ) (body : Option HostInput)
      → IsSound net st.hosts st.next_id
      → rq.fails Call.read_back ≡ false
      → rq.fails Call.undo_write ≡ false
      → succeeded (update_body net env rq st id body).1 ≡ false
      → SameRows (update_body net env rq st id body).0 st
  update_body-rows rq st none body s b u = λ p. refl
  update_body-rows rq st (some id) none s b u = λ p. refl
  update_body-rows rq st (some id) (some raw) s b u =
      elim (Option-cases (objection net env rq (normalize_and_validate net raw) id st)) [
        | inl f ↦ rw f (
            update_row-rows rq id (normalize_and_validate net raw).0 st
              (get_host (rq.fails Call.read_host) id st) refl s b u)
        | inr (r, f) ↦ rw f (λ p. refl)
      ]

  -- On sound stored hosts, an update that does not succeed leaves them as they were but for the
  -- times of their last changes, wherever it stopped, if the row it wrote can be read and written
  -- again.
  pub host_update-rollback :
      (rq : Request) (st : State)
      → IsSound net st.hosts st.next_id
      → rq.fails Call.read_back ≡ false
      → rq.fails Call.undo_write ≡ false
      → succeeded (host_update net env rq st).1 ≡ false
      → map undated (host_update net env rq st).0.hosts ≡ map undated st.hosts
  unfolding host_update
  host_update-rollback rq st = update_body-rows rq st rq.path_id rq.body
