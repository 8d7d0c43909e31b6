-- ===== src/Api/Hosts/Effects.antt =====
-- internal/api/server.go: proofs on what a reply to a request on hosts says of the state.
use zent_proxy.Base.{
  ℕ, ◌≡◌, refl, inl, inr, Bool, true, false, not, Option, none, some, if◌then◌else◌, Bool-cases,
  Text, lit,
}
use zent_proxy.Model.{HostInput, Host}
use zent_proxy.Net.{Net}
use zent_proxy.Proxy.Hosts.{HostError, normalize_and_validate, check_domain_conflicts}
use zent_proxy.Strings.Sorting.{sort_by}
use zent_proxy.Store.Rows.{find}
use zent_proxy.Api.Hosts.{
  create_body, activate_as, known, certificate_objection, objected, apply, check_references,
  conflict_reply, check_conflicts, or_reply, error_reply, objection, finish_create, after_create,
  create_unless, hosts_create, finish_update, after_update, update_row, update_unless, update_body,
  host_update, finish_delete, delete_id, host_delete, serve,
}
use zent_proxy.Api.State.{
  Call, Operation, Request, Outcome, Env, State, Reply, refused, saved, deleted, id_of,
  listed_before, create_host, delete_row, add_audit, Row, get_host, is_missing, update_host,
}

-- The reply says that the request was carried out.
unfoldable pub succeeded : Reply → Bool
succeeded (saved status h) = true
succeeded deleted = true
succeeded _ = false

module _ (net : Net) (env : Env) where
  -- The configuration on disk is that of the stored hosts.
  abbrev IsLive : State × Reply → Type 0
  IsLive (st, r) = succeeded r ≡ true → st.live ≡ st.hosts

  finish_create-IsLive :
      (rq : Request) (h : Host) (o : Outcome) (st : State)
      → IsLive (finish_create net env rq h (activate_as o st))
  unfolding succeeded add_audit
  finish_create-IsLive rq h Outcome.activated st p = refl
  finish_create-IsLive rq h Outcome.rejected st p = cc
  finish_create-IsLive rq h Outcome.broken st p = cc

  finish_update-IsLive :
      (rq : Request) (old h : Host) (o : Outcome) (st : State)
      → IsLive (finish_update net env rq old h (activate_as o st))
  unfolding succeeded add_audit
  finish_update-IsLive rq old h Outcome.activated st p = refl
  finish_update-IsLive rq old h Outcome.rejected st p = cc
  finish_update-IsLive rq old h Outcome.broken st p = cc

  finish_delete-IsLive :
      (rq : Request) (id : ℕ) (o : Outcome) (st : State)
      → IsLive (finish_delete net env rq id (activate_as o st))
  unfolding succeeded add_audit
  finish_delete-IsLive rq id Outcome.activated st p = refl
  finish_delete-IsLive rq id Outcome.rejected st p = cc
  finish_delete-IsLive rq id Outcome.broken st p = cc

  after_create-IsLive :
      (rq : Request) (made : State × Option Host) → IsLive (after_create net env rq made)
  unfolding succeeded apply
  after_create-IsLive rq (st, none) p = cc
  after_create-IsLive rq (st, some h) p =
      finish_create-IsLive rq h (env.activation st.activations st.hosts) st p

  -- A guard that stops a request does not say that it succeeded.
  abbrev Refuses : Option Reply → Type 0
  Refuses none = Unit
  Refuses (some e) = succeeded e ≡ false

  or_reply-Refuses : (a b : Option Reply) → Refuses a → Refuses b → Refuses (or_reply net env a b)
  or_reply-Refuses none b p q = q
  or_reply-Refuses (some e) b p q = p

  error_reply-Refuses : (e : Option HostError) → Refuses (error_reply net env e)
  unfolding succeeded
  error_reply-Refuses none = tt
  error_reply-Refuses (some e) = refl

  objected-Refuses : (e : Option Text) (r : Option Reply) → Refuses r → Refuses (objected e r)
  unfolding succeeded
  objected-Refuses none r p = p
  objected-Refuses (some e) r p = refl

  check_references-Refuses : (in_ : HostInput) → Refuses (check_references net env in_)
  unfolding check_references succeeded
  check_references-Refuses in_ =
      elim (Bool-cases (known env.has_provider in_.trusted_proxy_provider_id)) [
        | inr e ↦ rw e refl
        | inl e ↦ rw e (
            objected-Refuses (certificate_objection env in_.certificate_id in_.domains)
              (if not (known env.has_access_list in_.access_list_id)
                then some (refused 422 (lit "access list does not exist"))
                else none)
              (elim (Bool-cases (known env.has_access_list in_.access_list_id)) [
                | inl q ↦ rw q tt
                | inr q ↦ rw q refl
              ]))
      ]

  conflict_reply-Refuses : (c : Option (Text × Text)) → Refuses (conflict_reply net env c)
  unfolding succeeded
  conflict_reply-Refuses none = tt
  conflict_reply-Refuses (some (d, name)) = refl

  check_conflicts-Refuses :
      (rq : Request) (in_ : HostInput) (exclude : ℕ) (st : State)
      → Refuses (check_conflicts net env rq in_ exclude st)
  unfolding check_conflicts succeeded
  check_conflicts-Refuses rq in_ exclude st = elim (Bool-cases (rq.fails Call.list_hosts)) [
    | inl e ↦ rw e refl
    | inr e ↦ rw e (
        conflict_reply-Refuses
          (check_domain_conflicts (sort_by listed_before st.hosts) in_.domains exclude))
  ]

  objection-Refuses :
      (rq : Request) (found : HostInput × Option HostError) (exclude : ℕ) (st : State)
      → Refuses (objection net env rq found exclude st)
  unfolding objection
  objection-Refuses rq (in_, e) exclude st =
      or_reply-Refuses (error_reply net env e)
        (or_reply net env (check_references net env in_)
          (check_conflicts net env rq in_ exclude st))
        (error_reply-Refuses e)
        (or_reply-Refuses (check_references net env in_) (check_conflicts net env rq in_ exclude st)
          (check_references-Refuses in_) (check_conflicts-Refuses rq in_ exclude st))

  create_unless-IsLive :
      (rq : Request) (in_ : HostInput) (st : State) (e : Option Reply)
      → Refuses e
      → IsLive (create_unless net env rq in_ st e)
  create_unless-IsLive rq in_ st none q p = after_create-IsLive rq (create_host rq in_ st) p
  create_unless-IsLive rq in_ st (some e) q p = absurd (cc)

  create_body-IsLive :
      (rq : Request) (st : State) (body : Option HostInput)
      → IsLive (create_body net env rq st body)
  unfolding succeeded
  create_body-IsLive rq st none = λ p. cc
  create_body-IsLive rq st (some raw) =
      create_unless-IsLive rq (normalize_and_validate net raw).0 st
        (objection net env rq (normalize_and_validate net raw) 0 st)
        (objection-Refuses rq (normalize_and_validate net raw) 0 st)

  after_update-IsLive :
      (rq : Request) (old : Host) (done : State × Row) → IsLive (after_update net env rq old done)
  unfolding succeeded apply
  after_update-IsLive rq old (st, Row.missing) p = cc
  after_update-IsLive rq old (st, Row.failed) p = cc
  after_update-IsLive rq old (st, Row.row h) p =
      finish_update-IsLive rq old h (env.activation st.activations st.hosts) st p

  update_row-IsLive :
      (rq : Request) (id : ℕ) (in_ : HostInput) (st : State) (r : Row)
      → IsLive (update_row net env rq id in_ st r)
  unfolding succeeded
  update_row-IsLive rq id in_ st Row.missing p = cc
  update_row-IsLive rq id in_ st Row.failed p = cc
  update_row-IsLive rq id in_ st (Row.row old) p =
      after_update-IsLive rq old (update_host rq id in_ st) p

  update_unless-IsLive :
      (rq : Request) (id : ℕ) (in_ : HostInput) (st : State) (e : Option Reply)
      → Refuses e
      → IsLive (update_unless net env rq id in_ st e)
  update_unless-IsLive rq id in_ st none q p =
      update_row-IsLive rq id in_ st (get_host (rq.fails Call.read_host) id st) p
  update_unless-IsLive rq id in_ st (some e) q p = absurd (cc)

  update_body-IsLive :
      (rq : Request) (st : State) (id : Option ℕ) (body : Option HostInput)
      → IsLive (update_body net env rq st id body)
  unfolding succeeded
  update_body-IsLive rq st none body = λ p. cc
  update_body-IsLive rq st (some id) none = λ p. cc
  update_body-IsLive rq st (some id) (some raw) =
      update_unless-IsLive rq id (normalize_and_validate net raw).0 st
        (objection net env rq (normalize_and_validate net raw) id st)
        (objection-Refuses rq (normalize_and_validate net raw) id st)

  delete_id-IsLive :
      (rq : Request) (st : State) (id : Option ℕ) → IsLive (delete_id net env rq st id)
  unfolding succeeded apply
  delete_id-IsLive rq st none = λ p. cc
  delete_id-IsLive rq st (some id) = elim (Bool-cases (rq.fails Call.write_host)) [
    | inl e ↦ rw e (λ p. absurd (cc))
    | inr e ↦ rw e (elim (Bool-cases (is_missing (find id_of id st.hosts))) [
      | inl f ↦ rw f (λ p. absurd (cc))
      | inr f ↦ rw f (
          finish_delete-IsLive rq id
            (env.activation (delete_row id st).activations (delete_row id st).hosts)
            (delete_row id st))
    ])
  ]

  -- After a request that succeeded, whatever failed on the way, the configuration on disk is that of
  -- the stored hosts.
  pub serve-live :
      (op : Operation) (rq : Request) (st : State)
      → succeeded (serve net env op rq st).1 ≡ true
      → (serve net env op rq st).0.live ≡ (serve net env op rq st).0.hosts
  unfolding serve hosts_create host_update host_delete
  serve-live Operation.create rq st p = create_body-IsLive rq st rq.body p
  serve-live Operation.update rq st p = update_body-IsLive rq st rq.path_id rq.body p
  serve-live Operation.delete rq st p = delete_id-IsLive rq st rq.path_id p
