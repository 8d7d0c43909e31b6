-- ===== src/Api/Items.antt =====
-- internal/api/server.go: creating, updating and deleting a stream, a redirect host or a 404 host, with
-- the rows of internal/db/store.go. The three are treated alike: what differs is a record, which
-- Streams, Redirects and DeadHosts fill.
pub mod Streams
pub mod Redirects
pub mod DeadHosts
pub mod Rollback
pub mod Undone
use zent_proxy.Base.{
  ℕ, suc, ◌≡◌, Bool, true, false, Option, none, some, List, [], ◌∷◌, ◌++◌, if◌then◌else◌, Text, lit,
}
use zent_proxy.Store.Rows.{find, replace, remove}
use zent_proxy.Api.State.{Audit, Outcome, activated, rejected, broken}

-- a status and a message
pub record Refusal : Type 0 where
  pub status : ℕ
  pub message : Text

pub record Kind (Item Input : Type 0) : Type 0 where
  pub id_of : Item → ℕ
  pub created_at : Item → ℕ
  -- a row from its id, the times of its creation and of its last change, and an input
  pub build : ℕ → ℕ → ℕ → Input → Item
  pub input_of : Item → Input
  -- a row without the time of its last change
  pub undated : Item → Item
  pub check_create : Input → Option Refusal
  pub check_update : Input → Option Refusal
  pub not_found : Text
  pub cannot_read : Text
  pub cannot_create : Text
  pub cannot_update : Text
  pub cannot_delete : Text
  pub deleted_but : Text
  pub object_type : Text
  pub detail : Item → Text
  pub id_of-build : (id c u : ℕ) (x : Input) → id_of (build id c u x) ≡ id
  pub created_at-build : (id c u : ℕ) (x : Input) → created_at (build id c u x) ≡ c
  -- the input that is made of a row writes the row
  pub build-input_of :
      (a : Item) (u : ℕ) → undated (build (id_of a) (created_at a) u (input_of a)) ≡ undated a

pub data ItemCall : Type 0 where
  read_item write_item read_back undo_item : ItemCall

pub record ItemRequest (Input : Type 0) : Type 0 where
  pub path_id : Option ℕ
  -- the body, where it is decoded
  pub body : Option Input
  pub now : ℕ
  pub actor : Text
  pub fails : ItemCall → Bool

pub record Items (Item : Type 0) : Type 0 where
  pub rows : List Item
  pub next_id : ℕ
  -- the rows of the configuration on disk
  pub live : List Item
  pub activations : ℕ
  pub audits : List Audit

pub data ItemReply (Item : Type 0) : Type 0 where
  bad_request : ItemReply Item
  refused : ℕ → Text → ItemReply Item
  saved : ℕ → Item → ItemReply Item
  deleted : ItemReply Item

pub data Found (Item : Type 0) : Type 0 where
  found : Item → Found Item
  missing failed : Found Item

abbrev pub found_of : {Item : Type 0} → Option Item → Found Item
found_of none = missing
found_of (some a) = found a

abbrev pub activate_as : {Item : Type 0} → Outcome → Items Item → Items Item × Bool
activate_as activated st = (record st { live = st.rows; activations = suc st.activations }, true)
activate_as rejected st = (record st { activations = suc st.activations }, false)
activate_as broken st = (record st { live = st.rows; activations = suc st.activations }, false)

module _ {Item Input : Type 0} (kind : Kind Item Input) (outcome : ℕ → List Item → Outcome) where
  unfoldable pub apply : Items Item → Items Item × Bool
  apply st = activate_as (outcome st.activations st.rows) st

  unfoldable pub add_audit : ItemRequest Input → Text → ℕ → Text → Items Item → Items Item
  add_audit rq action id detail st = record st {
    audits =
        (record {
          at = rq.now;
          actor = rq.actor;
          action = action;
          object_type = kind.object_type;
          object_id = id;
          detail = detail;
        })
        ∷ st.audits;
  }

  unfoldable pub get_item : Bool → ℕ → Items Item → Found Item
  get_item fails id st = if fails then failed else found_of (find kind.id_of id st.rows)

  unfoldable pub insert_item : ℕ → Input → Items Item → Items Item
  insert_item now x st = record st {
    rows = st.rows ++ (kind.build st.next_id now now x ∷ []);
    next_id = suc st.next_id;
  }

  unfoldable pub create_item : ItemRequest Input → Input → Items Item → Items Item × Found Item
  create_item rq x st = if rq.fails write_item then (st, failed) else (
    insert_item rq.now x st,
    get_item (rq.fails read_back) st.next_id (insert_item rq.now x st),
  )

  unfoldable pub rewritten : ℕ → Input → Item → Item
  rewritten now x a = kind.build (kind.id_of a) (kind.created_at a) now x

  unfoldable pub write_row : ℕ → ℕ → Input → Items Item → Items Item
  write_row id now x st = record st { rows = replace kind.id_of id (rewritten now x) st.rows }

  abbrev pub is_missing : Option Item → Bool
  is_missing none = true
  is_missing (some a) = false

  unfoldable pub update_item : ItemRequest Input → ℕ → Input → Items Item → Items Item × Found Item
  update_item rq id x st =
      if rq.fails write_item
      then (st, failed)
      else if is_missing (find kind.id_of id st.rows)
      then (st, missing)
      else (write_row id rq.now x st, get_item (rq.fails read_back) id (write_row id rq.now x st))

  unfoldable pub delete_row : ℕ → Items Item → Items Item
  delete_row id st = record st { rows = remove kind.id_of id st.rows }

  unfoldable pub undo_create : ItemRequest Input → ℕ → Items Item → Items Item
  undo_create rq id st = if rq.fails undo_item then st else delete_row id st

  abbrev pub finish_create :
      ItemRequest Input → Item → Items Item × Bool → Items Item × ItemReply Item
  finish_create rq a (st, true) =
      (add_audit rq (lit "create") (kind.id_of a) (kind.detail a) st, saved 201 a)
  finish_create rq a (st, false) =
      ((apply (undo_create rq (kind.id_of a) st)).0, refused 500 (lit "proxy activation failed: "))

  abbrev pub after_create :
      ItemRequest Input → Items Item → Found Item → Items Item × ItemReply Item
  after_create rq st missing = (st, refused 500 kind.cannot_create)
  after_create rq st failed = (st, refused 500 kind.cannot_create)
  after_create rq st (found a) = finish_create rq a (apply st)

  abbrev pub create_unless :
      ItemRequest Input → Input → Option Refusal → Items Item → Items Item × ItemReply Item
  create_unless rq x (some e) st = (st, refused e.status e.message)
  create_unless rq x none st = after_create rq (create_item rq x st).0 (create_item rq x st).1

  abbrev pub create_body :
      ItemRequest Input → Option Input → Items Item → Items Item × ItemReply Item
  create_body rq none st = (st, bad_request)
  create_body rq (some x) st = create_unless rq x (kind.check_create x) st

  unfoldable pub item_create : ItemRequest Input → Items Item → Items Item × ItemReply Item
  item_create rq st = create_body rq rq.body st

  unfoldable pub undo_update : ItemRequest Input → ℕ → Item → Items Item → Items Item
  undo_update rq id old st =
      if rq.fails undo_item then st else write_row id rq.now (kind.input_of old) st

  abbrev pub finish_update :
      ItemRequest Input → ℕ → Item → Item → Items Item × Bool → Items Item × ItemReply Item
  finish_update rq id old a (st, true) =
      (add_audit rq (lit "update") id (kind.detail a) st, saved 200 a)
  finish_update rq id old a (st, false) =
      ((apply (undo_update rq id old st)).0, refused 500 (lit "proxy activation failed: "))

  abbrev pub after_update :
      ItemRequest Input → ℕ → Item → Items Item → Found Item → Items Item × ItemReply Item
  after_update rq id old st missing = (st, refused 500 kind.cannot_update)
  after_update rq id old st failed = (st, refused 500 kind.cannot_update)
  after_update rq id old st (found a) = finish_update rq id old a (apply st)

  abbrev pub update_unless :
      ItemRequest Input
      → ℕ
      → Item
      → Input
      → Option Refusal
      → Items Item
      → Items Item × ItemReply Item
  update_unless rq id old x (some e) st = (st, refused e.status e.message)
  update_unless rq id old x none st =
      after_update rq id old (update_item rq id x st).0 (update_item rq id x st).1

  abbrev pub update_body :
      ItemRequest Input → ℕ → Item → Option Input → Items Item → Items Item × ItemReply Item
  update_body rq id old none st = (st, bad_request)
  update_body rq id old (some x) st = update_unless rq id old x (kind.check_update x) st

  abbrev pub update_found :
      ItemRequest Input → ℕ → Found Item → Items Item → Items Item × ItemReply Item
  update_found rq id missing st = (st, refused 404 kind.not_found)
  update_found rq id failed st = (st, refused 500 kind.cannot_read)
  update_found rq id (found old) st = update_body rq id old rq.body st

  abbrev pub update_id : ItemRequest Input → Option ℕ → Items Item → Items Item × ItemReply Item
  update_id rq none st = (st, refused 400 (lit "invalid id"))
  update_id rq (some id) st = update_found rq id (get_item (rq.fails read_item) id st) st

  unfoldable pub item_update : ItemRequest Input → Items Item → Items Item × ItemReply Item
  item_update rq st = update_id rq rq.path_id st

  abbrev pub finish_delete : ItemRequest Input → ℕ → Items Item × Bool → Items Item × ItemReply Item
  finish_delete rq id (st, true) = (add_audit rq (lit "delete") id [] st, deleted)
  finish_delete rq id (st, false) = (st, refused 500 kind.deleted_but)

  -- A row that is not there is deleted with success.
  abbrev pub delete_id : ItemRequest Input → Option ℕ → Items Item → Items Item × ItemReply Item
  delete_id rq none st = (st, refused 400 (lit "invalid id"))
  delete_id rq (some id) st =
      if rq.fails write_item
      then (st, refused 500 kind.cannot_delete)
      else finish_delete rq id (apply (delete_row id st))

  unfoldable pub item_delete : ItemRequest Input → Items Item → Items Item × ItemReply Item
  item_delete rq st = delete_id rq rq.path_id st

-- Opens the component for a test.
unfoldable pub items : Unit {0}
unfolding apply add_audit get_item insert_item create_item rewritten write_row update_item
    delete_row undo_create item_create undo_update item_update item_delete find replace remove
items = tt
