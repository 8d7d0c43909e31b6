-- ===== src/Api/Hosts/Invariant/Run.antt =====
-- internal/api/server.go: proofs on the stored hosts under `host_delete` and sequences of requests.
use zent_proxy.Base.{
  ℕ, ◌≤◌, ◌≡◌, subst, inl, inr, Bool, true, false, Option, none, some, List, [], ◌∷◌, Bool-cases,
  In,
}
use zent_proxy.Model.{Host}
use zent_proxy.Net.{Net}
use zent_proxy.Store.Rows.{find}
use zent_proxy.Api.Hosts.{
  apply, hosts_create, host_update, finish_delete, delete_id, host_delete, serve, run,
}
use zent_proxy.Api.State.{
  Call, Operation, Request, Env, State, id_of, delete_row, add_audit, is_missing,
}
use zent_proxy.Api.Hosts.Invariant.{
  create_body-IsSound, delete_row-IsSound, apply-IsSound, IsSoundState,
}
use zent_proxy.Api.Hosts.Invariant.Update.{update_body-IsSound}

module _ (net : Net) (env : Env) where
  finish_delete-IsSound :
      (rq : Request) (id : ℕ) (done : State × Bool)
      → IsSoundState net env done.0
      → IsSoundState net env (finish_delete net env rq id done).0
  unfolding add_audit
  finish_delete-IsSound rq id (st, true) s = s
  finish_delete-IsSound rq id (st, false) s = s

  delete_id-IsSound :
      (rq : Request) (st : State) (path_id : Option ℕ)
      → IsSoundState net env st
      → IsSoundState net env (delete_id net env rq st path_id).0
  delete_id-IsSound rq st none s = s
  delete_id-IsSound rq st (some id) s = elim (Bool-cases (rq.fails Call.write_host)) [
    | inl e ↦ rw e s
    | inr e ↦ rw e (elim (Bool-cases (is_missing (find id_of id st.hosts))) [
      | inl g ↦ rw g s
      | inr g ↦ rw g (
          finish_delete-IsSound rq id (apply net env (delete_row id st))
            (apply-IsSound net env (delete_row id st) (delete_row-IsSound net env id st s)))
    ])
  ]

  -- Whatever fails on the way, a request leaves sound hosts sound: all accepted, no two with a domain
  -- in common, their ids unique and used.
  pub serve-IsSound :
      (op : Operation) (rq : Request) (st : State)
      → IsSoundState net env st
      → IsSoundState net env (serve net env op rq st).0
  unfolding serve hosts_create host_update host_delete
  serve-IsSound Operation.create rq st s = create_body-IsSound net env rq st rq.body s
  serve-IsSound Operation.update rq st s = update_body-IsSound net env rq st rq.path_id rq.body s
  serve-IsSound Operation.delete rq st s = delete_id-IsSound rq st rq.path_id s

  run_sound :
      (rs : List (Operation × Request)) (st : State)
      → IsSoundState net env st
      → IsSoundState net env (run net env rs st)
  unfolding run
  run_sound [] st s = s
  run_sound ((op, rq) ∷ rs) st s =
      run_sound rs (serve net env op rq st).0 (serve-IsSound op rq st s)

  pub none_stored : (st : State) → st.hosts ≡ [] → 1 ≤ st.next_id → IsSoundState net env st
  none_stored st p q =
      let stop : (h : Host) → ¬ In h st.hosts = λ h i. subst (λ xs. In h xs) p i in
      record {
        accepted = λ h i. absurd (stop h i);
        apart = λ g h i. absurd (stop g i);
        unique = λ g h i. absurd (stop g i);
        below = λ h i. absurd (stop h i);
        positive = λ h i. absurd (stop h i);
        started = q;
      }

  -- After any sequence of requests on a store without hosts, whose next id is at least 1, all
  -- hosts are accepted ones, no two of them share a domain, and their ids are unique, at least 1
  -- and below the next id.
  pub run-IsSound :
      (rs : List (Operation × Request)) (st : State)
      → st.hosts ≡ []
      → 1 ≤ st.next_id
      → IsSoundState net env (run net env rs st)
  run-IsSound rs st p q = run_sound rs st (none_stored st p q)
