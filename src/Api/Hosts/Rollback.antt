-- ===== src/Api/Hosts/Rollback.antt =====
-- internal/api/server.go: proofs on the undoing of a creation.
pub mod Update
use zent_proxy.Base.{
  ℕ, ◌-◌, ◌/◌, ◌≡◌, refl, ap, ◌∙◌, inl, inr, Bool, true, false, not, Option, none, some, Bool-cases,
  Option-cases, lit,
}
use zent_proxy.Model.{HostInput, Host}
use zent_proxy.Net.{Net}
use zent_proxy.Proxy.Hosts.{normalize_and_validate}
use zent_proxy.Store.Rows.{find, remove, remove-insert, find-insert}
use zent_proxy.Api.Hosts.{
  create_body, activate_as, apply, check_references, check_conflicts, objection, undo_create,
  finish_create, after_create, hosts_create,
}
use zent_proxy.Api.State.{
  Call, write_host, read_back, undo_write, Request, Outcome, activated, rejected, broken, Env,
  State, deleted, id_of, host_of_input, insert_host, create_host, delete_row, row,
}
use zent_proxy.Api.Hosts.Effects.{succeeded}
use zent_proxy.Api.Hosts.Sound.{IsSound}

-- A row without the time of its last change.
abbrev pub undated : Host → Host
undated h = record h { updated_at = 0 }

module _ (net : Net) (env : Env) where
  activate_as-hosts : (o : Outcome) (st : State) → (activate_as o st).0.hosts ≡ st.hosts
  activate_as-hosts Outcome.activated st = refl
  activate_as-hosts Outcome.rejected st = refl
  activate_as-hosts Outcome.broken st = refl

  pub apply-hosts : (st : State) → (apply net env st).0.hosts ≡ st.hosts
  unfolding apply
  apply-hosts st = activate_as-hosts (env.activation st.activations st.hosts) st

  delete_row-insert_host :
      (now : ℕ) (in_ : HostInput) (st : State)
      → IsSound net st.hosts st.next_id
      → (delete_row st.next_id (insert_host now in_ st)).hosts ≡ st.hosts
  unfolding delete_row insert_host id_of host_of_input
  delete_row-insert_host now in_ st s =
      remove-insert id_of st.next_id st.hosts (host_of_input st.next_id now now in_) s.below refl

  -- The row that was inserted is found.
  find-insert_host :
      (now : ℕ) (in_ : HostInput) (st : State)
      → IsSound net st.hosts st.next_id
      → find id_of st.next_id (insert_host now in_ st).hosts
        ≡ some (host_of_input st.next_id now now in_)
  unfolding insert_host id_of host_of_input
  find-insert_host now in_ st s =
      find-insert id_of st.next_id st.hosts (host_of_input st.next_id now now in_) s.below refl

  undo_create-hosts :
      (rq : Request) (id : ℕ) (st : State)
      → rq.fails Call.undo_write ≡ false
      → undo_create net env rq id st ≡ delete_row id st
  unfolding undo_create
  undo_create-hosts rq id st u = rw u refl

  finish_create-hosts :
      (rq : Request) (h : Host) (done : State × Bool)
      → rq.fails Call.undo_write ≡ false
      → succeeded (finish_create net env rq h done).1 ≡ false
      → (finish_create net env rq h done).0.hosts ≡ (delete_row h.id done.0).hosts
  unfolding succeeded
  finish_create-hosts rq h (st, true) u p = absurd (cc)
  finish_create-hosts rq h (st, false) u p =
      apply-hosts (undo_create net env rq h.id st)
      ∙ ap (λ (x : State). x.hosts) (undo_create-hosts rq h.id st u)

  delete_row-apply :
      (id : ℕ) (st : State) → (delete_row id (apply net env st).0).hosts ≡ (delete_row id st).hosts
  unfolding delete_row
  delete_row-apply id st = ap (remove id_of id) (apply-hosts st)

  after_create-hosts :
      (rq : Request) (in_ : HostInput) (st : State)
      → IsSound net st.hosts st.next_id
      → rq.fails Call.read_back ≡ false
      → rq.fails Call.undo_write ≡ false
      → succeeded (after_create net env rq (create_host rq in_ st)).1 ≡ false
      → (after_create net env rq (create_host rq in_ st)).0.hosts ≡ st.hosts
  unfolding create_host
  after_create-hosts rq in_ st s b u = elim (Bool-cases (rq.fails Call.write_host)) [
    | inl e ↦ rw e (λ p. refl)
    | inr e ↦
        let h = host_of_input st.next_id rq.now rq.now in_ in
        let st2 = insert_host rq.now in_ st in
        rw e (
          rw b (
            rw (find-insert_host rq.now in_ st s) (λ p.
              finish_create-hosts rq h (apply net env st2) u p
              ∙ delete_row-apply h.id st2
              ∙ (unfold host_of_input in delete_row-insert_host rq.now in_ st s))))
  ]

  create_body-hosts :
      (rq : Request) (st : State) (body : Option HostInput)
      → IsSound net st.hosts st.next_id
      → rq.fails Call.read_back ≡ false
      → rq.fails Call.undo_write ≡ false
      → succeeded (create_body net env rq st body).1 ≡ false
      → (create_body net env rq st body).0.hosts ≡ st.hosts
  create_body-hosts rq st none s b u = λ p. refl
  create_body-hosts rq st (some raw) s b u =
      elim (Option-cases (objection net env rq (normalize_and_validate net raw) 0 st)) [
        | inl f ↦ rw f (after_create-hosts rq (normalize_and_validate net raw).0 st s b u)
        | inr (r, f) ↦ rw f (λ p. refl)
      ]

  -- On sound stored hosts, a creation that does not succeed leaves them as they were, wherever it
  -- stopped, if the row it wrote can be read and deleted.
  pub hosts_create-rollback :
      (rq : Request) (st : State)
      → IsSound net st.hosts st.next_id
      → rq.fails Call.read_back ≡ false
      → rq.fails Call.undo_write ≡ false
      → succeeded (hosts_create net env rq st).1 ≡ false
      → (hosts_create net env rq st).0.hosts ≡ st.hosts
  unfolding hosts_create succeeded objection normalize_and_validate
      zent_proxy.Proxy.Hosts.validate_host zent_proxy.Strings.Trim.is_nil
      zent_proxy.Strings.Trim.trim_space zent_proxy.Strings.Trim.trim
      zent_proxy.Strings.Trim.trim_right zent_proxy.Strings.Trim.trim_left
      zent_proxy.Proxy.Hosts.normalize_host_input zent_proxy.Strings.Sorting.sort_texts
      check_references zent_proxy.Strings.Sorting.sort_by lit check_conflicts create_host
      undo_create
  hosts_create-rollback rq st = create_body-hosts rq st rq.body
