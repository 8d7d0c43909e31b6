-- ===== src/Api/Hosts.antt =====
-- internal/api/server.go: creating, updating and deleting a proxy host, with the rows of
-- internal/db/store.go and the activation of internal/proxy/manager.go. A call of the store may fail,
-- which a request says beforehand, and so may each activation, which is a parameter.
pub mod Sound
pub mod Effects
pub mod Invariant
pub mod Rollback
use zent_proxy.Base.{
  ℕ, suc, ◌-◌, ◌/◌, Bool, true, false, not, Option, none, some, List, [], ◌∷◌, if◌then◌else◌, Text,
  lit,
}
use zent_proxy.Model.{HostInput, Host}
use zent_proxy.Net.{Net}
use zent_proxy.Strings.Sorting.{sort_by}
use zent_proxy.Proxy.Hosts.{
  HostError, normalize_and_validate, check_domain_conflicts, input_of_host,
}
use zent_proxy.Store.Rows.{find, replace, remove}
use zent_proxy.Api.State.{
  Env, Operation, Outcome, Reply, Request, Row, State, activated, add_audit, bad_request, broken,
  conflict, create, create_host, delete, delete_row, deleted, failed, get_host, host_of_input,
  id_of, insert_host, invalid, is_missing, list_hosts, listed_before, missing, read_host, refused,
  rejected, row, saved, undo_write, update, update_host, updated_host, write_host, write_row,
}

abbrev pub activate_as : Outcome → State → State × Bool
activate_as activated st = (record st { live = st.hosts; activations = suc st.activations }, true)
activate_as rejected st = (record st { activations = suc st.activations }, false)
activate_as broken st = (record st { live = st.hosts; activations = suc st.activations }, false)

abbrev pub known : (ℕ → Bool) → Option ℕ → Bool
known has none = true
known has (some id) = has id

abbrev pub certificate_objection : Env → Option ℕ → List Text → Option Text
certificate_objection env none domains = none
certificate_objection env (some id) domains = env.certificate_error id domains

abbrev pub objected : Option Text → Option Reply → Option Reply
objected (some e) rest = some (refused 422 e)
objected none rest = rest

module _ (net : Net) (env : Env) where
  -- `proxy.Apply` on what the store holds
  unfoldable pub apply : State → State × Bool
  apply st = activate_as (env.activation st.activations st.hosts) st

  -- what the input refers to
  unfoldable pub check_references : HostInput → Option Reply
  check_references in_ =
      if not (known env.has_provider in_.trusted_proxy_provider_id)
      then some (refused 422 (lit "trusted proxy provider does not exist"))
      else objected (certificate_objection env in_.certificate_id in_.domains) (
          if not (known env.has_access_list in_.access_list_id)
          then some (refused 422 (lit "access list does not exist"))
          else none)

  abbrev pub conflict_reply : Option (Text × Text) → Option Reply
  conflict_reply none = none
  conflict_reply (some (d, name)) = some (conflict d name)

  -- that no other host has one of the domains
  unfoldable pub check_conflicts : Request → HostInput → ℕ → State → Option Reply
  check_conflicts rq in_ exclude st =
      if rq.fails list_hosts
      then some (refused 500 (lit "cannot validate domains"))
      else conflict_reply
          (check_domain_conflicts (sort_by listed_before st.hosts) in_.domains exclude)

  abbrev pub or_reply : Option Reply → Option Reply → Option Reply
  or_reply (some e) rest = some e
  or_reply none rest = rest

  abbrev pub error_reply : Option HostError → Option Reply
  error_reply none = none
  error_reply (some e) = some (invalid e)

  -- The guards that creating and updating share, in their order.
  unfoldable pub objection : Request → HostInput × Option HostError → ℕ → State → Option Reply
  objection rq (in_, e) exclude st =
      or_reply (error_reply e) (or_reply (check_references in_) (check_conflicts rq in_ exclude st))

  unfoldable pub undo_create : Request → ℕ → State → State
  undo_create rq id st = if rq.fails undo_write then st else delete_row id st

  abbrev pub finish_create : Request → Host → State × Bool → State × Reply
  finish_create rq h (st, true) = (add_audit rq (lit "create") h.id h.name st, saved 201 h)
  finish_create rq h (st, false) = (
    (apply (undo_create rq h.id st)).0,
    refused 500 (lit "host was not saved because proxy activation failed"),
  )

  abbrev pub after_create : Request → State × Option Host → State × Reply
  after_create rq (st, none) = (st, refused 500 (lit "cannot create host"))
  after_create rq (st, some h) = finish_create rq h (apply st)

  abbrev pub create_unless : Request → HostInput → State → Option Reply → State × Reply
  create_unless rq in_ st (some e) = (st, e)
  create_unless rq in_ st none = after_create rq (create_host rq in_ st)

  abbrev pub create_body : Request → State → Option HostInput → State × Reply
  create_body rq st none = (st, bad_request)
  create_body rq st (some raw) =
      create_unless rq (normalize_and_validate net raw).0 st
        (objection rq (normalize_and_validate net raw) 0 st)

  unfoldable pub hosts_create : Request → State → State × Reply
  hosts_create rq st = create_body rq st rq.body

  unfoldable pub undo_update : Request → Host → State → State
  undo_update rq old st =
      if rq.fails undo_write then st else write_row old.id rq.now (input_of_host old) st

  abbrev pub finish_update : Request → Host → Host → State × Bool → State × Reply
  finish_update rq old h (st, true) = (add_audit rq (lit "update") h.id h.name st, saved 200 h)
  finish_update rq old h (st, false) = (
    (apply (undo_update rq old st)).0,
    refused 500 (lit "host update was rolled back because proxy activation failed"),
  )

  abbrev pub after_update : Request → Host → State × Row → State × Reply
  after_update rq old (st, missing) = (st, refused 404 (lit "host not found"))
  after_update rq old (st, failed) = (st, refused 500 (lit "cannot update host"))
  after_update rq old (st, row h) = finish_update rq old h (apply st)

  abbrev pub update_row : Request → ℕ → HostInput → State → Row → State × Reply
  update_row rq id in_ st missing = (st, refused 404 (lit "host not found"))
  update_row rq id in_ st failed = (st, refused 500 (lit "cannot read host"))
  update_row rq id in_ st (row old) = after_update rq old (update_host rq id in_ st)

  abbrev pub update_unless : Request → ℕ → HostInput → State → Option Reply → State × Reply
  update_unless rq id in_ st (some e) = (st, e)
  update_unless rq id in_ st none = update_row rq id in_ st (get_host (rq.fails read_host) id st)

  abbrev pub update_body : Request → State → Option ℕ → Option HostInput → State × Reply
  update_body rq st none body = (st, refused 400 (lit "invalid id"))
  update_body rq st (some id) none = (st, bad_request)
  update_body rq st (some id) (some raw) =
      update_unless rq id (normalize_and_validate net raw).0 st
        (objection rq (normalize_and_validate net raw) id st)

  unfoldable pub host_update : Request → State → State × Reply
  host_update rq st = update_body rq st rq.path_id rq.body

  abbrev pub finish_delete : Request → ℕ → State × Bool → State × Reply
  finish_delete rq id (st, true) = (add_audit rq (lit "delete") id [] st, deleted)
  finish_delete rq id (st, false) = (st, refused 500 (lit "host deleted but proxy reload failed"))

  abbrev pub delete_id : Request → State → Option ℕ → State × Reply
  delete_id rq st none = (st, refused 400 (lit "invalid id"))
  delete_id rq st (some id) =
      if rq.fails write_host
      then (st, refused 500 (lit "cannot delete host"))
      else if is_missing (find id_of id st.hosts)
      then (st, refused 404 (lit "host not found"))
      else finish_delete rq id (apply (delete_row id st))

  unfoldable pub host_delete : Request → State → State × Reply
  host_delete rq st = delete_id rq st rq.path_id

  -- the routes POST /hosts, PUT /hosts/{id} and DELETE /hosts/{id}
  unfoldable pub serve : Operation → Request → State → State × Reply
  serve create rq st = hosts_create rq st
  serve update rq st = host_update rq st
  serve delete rq st = host_delete rq st

  -- one request after another
  unfoldable pub run : List (Operation × Request) → State → State
  run [] st = st
  run ((op, rq) ∷ rs) st = run rs (serve op rq st).0

-- Opens the component for a test.
unfoldable pub api_hosts : Unit {0}
unfolding id_of listed_before host_of_input insert_host create_host updated_host write_row
    delete_row add_audit get_host update_host apply check_references check_conflicts objection
    undo_create hosts_create undo_update host_update host_delete find replace remove serve run
api_hosts = tt
