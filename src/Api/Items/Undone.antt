-- ===== src/Api/Items/Undone.antt =====
-- internal/api/server.go: proofs on the update of a stream, a redirect host or a 404 host that cannot
-- be activated.
use zent_proxy.Base.{
  ℕ, ◌≡◌, refl, sym, ap, ◌∙◌, inl, inr, Bool, true, false, Option, none, some, List, map, arith,
  Bool-cases, In,
}
use zent_proxy.Store.Rows.{find, replace, find-replace}
use zent_proxy.Store.Ids.{AreUnique, find-own}
use zent_proxy.Api.State.{Outcome}
use zent_proxy.Api.Items.{
  found, missing, failed, read_item, write_item, undo_item, Refusal, Kind, read_item, write_item,
  undo_item, ItemRequest, Items, Found, found_of, apply, get_item, rewritten, write_row,
  update_item, undo_update, finish_update, after_update, update_unless, update_body, update_found,
  update_id, item_update,
}
use zent_proxy.Api.Items.Rollback.{is_saved, IsSteady, write_twice, apply-rows}

module _ {Item Input : Type 0} (kind : Kind Item Input) (outcome : ℕ → List Item → Outcome) where
  -- the rows but for the times of their last change
  abbrev pub SameButDated : List Item → List Item → Type 0
  SameButDated rows rows' = map kind.undated rows ≡ map kind.undated rows'

  the_old :
      (id : ℕ) (old : Item) (rows : List Item)
      → AreUnique (map kind.id_of rows)
      → find kind.id_of id rows ≡ some old
      → (a : Item) → In a rows
      → kind.id_of a ≡ id
      → a ≡ old
  the_old id old rows u f a i e =
      let own : find kind.id_of (kind.id_of a) rows ≡ some a = find-own kind.id_of a rows u i in
      let p : some a ≡ some old = sym own ∙ ap (λ k. find kind.id_of k rows) e ∙ f in ground arith

  finish_update-rows :
      (rq : ItemRequest Input) (id : ℕ) (x : Input) (old a : Item) (rows : List Item)
      (r : Items Item × Bool)
      → rq.fails undo_item ≡ false
      → r.0.rows ≡ replace kind.id_of id (rewritten kind outcome rq.now x) rows
      → ((b : Item) → In b rows → kind.id_of b ≡ id → b ≡ old)
      → is_saved (finish_update kind outcome rq id old a r).1 ≡ false
      → SameButDated (finish_update kind outcome rq id old a r).0.rows rows
  finish_update-rows rq id x old a rows (st, true) u e h s = absurd (cc)
  finish_update-rows rq id x old a rows (st, false) u e h s =
      ap (map kind.undated)
        (apply-rows kind outcome (undo_update kind outcome rq id old st) ∙ undone)
      ∙ ap
          (λ l.
            map kind.undated
              (replace kind.id_of id (rewritten kind outcome rq.now (kind.input_of old)) l))
          e
      ∙ write_twice kind outcome id rq.now x old rows h
    where
      undone :
          (undo_update kind outcome rq id old st).rows
          ≡ replace kind.id_of id (rewritten kind outcome rq.now (kind.input_of old)) st.rows
      undone = unfold undo_update write_row in rw u refl

  after_update-rows :
      (rq : ItemRequest Input) (id : ℕ) (x : Input) (old : Item) (st : Items Item) (f : Found Item)
      → rq.fails undo_item ≡ false
      → ((b : Item) → In b st.rows → kind.id_of b ≡ id → b ≡ old)
      → (a : Item) × (f ≡ found a)
      → is_saved (after_update kind outcome rq id old (write_row kind outcome id rq.now x st) f).1
        ≡ false
      → SameButDated
          (after_update kind outcome rq id old (write_row kind outcome id rq.now x st) f).0.rows
          st.rows
  unfolding write_row
  after_update-rows rq id x old st missing u h (a, e) = absurd (cc)
  after_update-rows rq id x old st failed u h (a, e) = absurd (cc)
  after_update-rows rq id x old st (found b) u h (a, e) =
      finish_update-rows rq id x old b st.rows
        (apply kind outcome (write_row kind outcome id rq.now x st)) u
        (apply-rows kind outcome (write_row kind outcome id rq.now x st)) h

  rewritten-id :
      (now : ℕ) (x : Input) (a : Item) → kind.id_of (rewritten kind outcome now x a) ≡ kind.id_of a
  unfolding rewritten
  rewritten-id now x a = kind.id_of-build (kind.id_of a) (kind.created_at a) now x

  update_unless-rows :
      (rq : ItemRequest Input) (id : ℕ) (x : Input) (old : Item) (st : Items Item)
      → IsSteady rq
      → AreUnique (map kind.id_of st.rows)
      → find kind.id_of id st.rows ≡ some old
      → (o : Option Refusal) → is_saved (update_unless kind outcome rq id old x o st).1 ≡ false
      → SameButDated (update_unless kind outcome rq id old x o st).0.rows st.rows
  unfolding update_item get_item
  update_unless-rows rq id x old st (u, v) q f (some e) = λ s. refl
  update_unless-rows rq id x old st (u, v) q f none = elim (Bool-cases (rq.fails write_item)) [
    | inl e ↦ rw e (λ s. refl)
    | inr e ↦
        rw (e, f, v)
          (after_update-rows rq id x old st
            (found_of (find kind.id_of id (write_row kind outcome id rq.now x st).rows)) u
            (the_old id old st.rows q f)
            (unfold write_row in
              let (b, k) =
                find-replace kind.id_of id (rewritten kind outcome rq.now x) st.rows old
                  (rewritten-id rq.now x) f in
              (b, ap found_of k)))
  ]

  update_body-rows :
      (rq : ItemRequest Input) (id : ℕ) (b : Option Input) (old : Item) (st : Items Item)
      → IsSteady rq
      → AreUnique (map kind.id_of st.rows)
      → find kind.id_of id st.rows ≡ some old
      → is_saved (update_body kind outcome rq id old b st).1 ≡ false
      → SameButDated (update_body kind outcome rq id old b st).0.rows st.rows
  update_body-rows rq id none old st z q f = λ s. refl
  update_body-rows rq id (some x) old st z q f =
      update_unless-rows rq id x old st z q f (kind.check_update x)

  update_found-rows :
      (rq : ItemRequest Input) (id : ℕ) (f : Found Item) (st : Items Item)
      → IsSteady rq
      → AreUnique (map kind.id_of st.rows)
      → ((old : Item) → f ≡ found old → find kind.id_of id st.rows ≡ some old)
      → is_saved (update_found kind outcome rq id f st).1 ≡ false
      → SameButDated (update_found kind outcome rq id f st).0.rows st.rows
  update_found-rows rq id missing st z q h = λ s. refl
  update_found-rows rq id failed st z q h = λ s. refl
  update_found-rows rq id (found old) st z q h =
      update_body-rows rq id rq.body old st z q (h old refl)

  found_of-inv : (o : Option Item) (a : Item) → found_of o ≡ found a → o ≡ some a
  found_of-inv none a e = absurd (cc)
  found_of-inv (some b) a e = ap item_of e
    where
      item_of : Found Item → Option Item
      item_of (found c) = some c
      item_of missing = none
      item_of failed = none

  get_item-inv :
      (fails : Bool) (id : ℕ) (st : Items Item) (a : Item)
      → get_item kind outcome fails id st ≡ found a
      → find kind.id_of id st.rows ≡ some a
  unfolding get_item
  get_item-inv true id st a e = absurd (cc)
  get_item-inv false id st a e = found_of-inv (find kind.id_of id st.rows) a e

  update_id-rows :
      (rq : ItemRequest Input) (k : Option ℕ) (st : Items Item)
      → IsSteady rq
      → AreUnique (map kind.id_of st.rows)
      → is_saved (update_id kind outcome rq k st).1 ≡ false
      → SameButDated (update_id kind outcome rq k st).0.rows st.rows
  update_id-rows rq none st z q = λ s. refl
  update_id-rows rq (some id) st z q =
      update_found-rows rq id (get_item kind outcome (rq.fails read_item) id st) st z q
        (λ old e. get_item-inv (rq.fails read_item) id st old e)

  -- An update that does not succeed leaves the rows as they were but for the times of their last
  -- change, whether the input, the store or the activation is the reason. This wants that the undoing
  -- and the reading back of a row do not fail, and that no id stands twice.
  pub item_update-rollback :
      (rq : ItemRequest Input) (st : Items Item)
      → IsSteady rq
      → AreUnique (map kind.id_of st.rows)
      → is_saved (item_update kind outcome rq st).1 ≡ false
      → SameButDated (item_update kind outcome rq st).0.rows st.rows
  unfolding item_update
  item_update-rollback rq st z q = update_id-rows rq rq.path_id st z q
