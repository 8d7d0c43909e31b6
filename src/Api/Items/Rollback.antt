-- ===== src/Api/Items/Rollback.antt =====
-- internal/api/server.go: proofs on what is left of a stream, a redirect host or a 404 host that
-- cannot be activated.
use zent_proxy.Base.{
  ℕ, ◌<◌, ◌≡◌, refl, sym, ap, ◌∙◌, subst, inl, inr, Bool, true, false, Option, none, some, List, [],
  ◌∷◌, ◌++◌, map, ◌==◌, ==_iff, Bool-cases, In,
}
use zent_proxy.Store.Rows.{find, replace, remove, remove-insert, find-insert}
use zent_proxy.Api.State.{Outcome, activated, rejected, broken}
use zent_proxy.Api.Items.{
  saved, found, missing, failed, Refusal, Kind, write_item, read_back, undo_item, ItemRequest,
  Items, ItemReply, Found, found_of, activate_as, apply, get_item, insert_item, create_item,
  rewritten, delete_row, undo_create, finish_create, after_create, create_unless, create_body,
  item_create,
}

abbrev pub is_saved : {Item : Type 0} → ItemReply Item → Bool
is_saved (saved status a) = true
is_saved r = false

-- Neither the undoing nor the reading back of a row fails.
abbrev pub IsSteady : {Input : Type 0} → ItemRequest Input → Type 0
IsSteady rq = (rq.fails undo_item ≡ false) × (rq.fails read_back ≡ false)

module _ {Item Input : Type 0} (kind : Kind Item Input) (outcome : ℕ → List Item → Outcome) where
  pub apply-rows : (st : Items Item) → (apply kind outcome st).0.rows ≡ st.rows
  unfolding apply
  apply-rows st = go (outcome st.activations st.rows)
    where
      go : (o : Outcome) → (activate_as o st).0.rows ≡ st.rows
      go activated = refl
      go rejected = refl
      go broken = refl

  finish_create-rows :
      (rq : ItemRequest Input) (a new : Item) (rows : List Item) (r : Items Item × Bool)
      → rq.fails undo_item ≡ false
      → r.0.rows ≡ rows ++ (new ∷ [])
      → ((b : Item) → In b rows → kind.id_of b < kind.id_of a)
      → kind.id_of new ≡ kind.id_of a
      → is_saved (finish_create kind outcome rq a r).1 ≡ false
      → (finish_create kind outcome rq a r).0.rows ≡ rows
  finish_create-rows rq a new rows (st, true) u e h k s = absurd (cc)
  finish_create-rows rq a new rows (st, false) u e h k s =
      apply-rows (undo_create kind outcome rq (kind.id_of a) st)
      ∙ undone
      ∙ ap (remove kind.id_of (kind.id_of a)) e
      ∙ remove-insert kind.id_of (kind.id_of a) rows new h k
    where
      undone :
          (undo_create kind outcome rq (kind.id_of a) st).rows
          ≡ remove kind.id_of (kind.id_of a) st.rows
      undone = unfold undo_create delete_row in rw u refl

  after_create-rows :
      (rq : ItemRequest Input) (x : Input) (st : Items Item) (f : Found Item)
      → rq.fails undo_item ≡ false
      → ((b : Item) → In b st.rows → kind.id_of b < st.next_id)
      → f ≡ found (kind.build st.next_id rq.now rq.now x)
      → is_saved (after_create kind outcome rq (insert_item kind outcome rq.now x st) f).1 ≡ false
      → (after_create kind outcome rq (insert_item kind outcome rq.now x st) f).0.rows ≡ st.rows
  unfolding insert_item
  after_create-rows rq x st missing u h e = absurd (cc)
  after_create-rows rq x st failed u h e = absurd (cc)
  after_create-rows rq x st (found a) u h e =
      let new : Item = kind.build st.next_id rq.now rq.now x in
      let own : kind.id_of new ≡ st.next_id = kind.id_of-build st.next_id rq.now rq.now x in
      let same : a ≡ new = ap (item_or new) e in
      let id : kind.id_of a ≡ st.next_id = ap kind.id_of same ∙ own in
      finish_create-rows rq a new st.rows
        (apply kind outcome (insert_item kind outcome rq.now x st)) u
        (apply-rows (insert_item kind outcome rq.now x st))
        (λ b i. subst (λ n. kind.id_of b < n) (sym id) (h b i)) (own ∙ sym id)
    where
      item_or : Item → Found Item → Item
      item_or b (found c) = c
      item_or b missing = b
      item_or b failed = b

  create_unless-rows :
      (rq : ItemRequest Input) (x : Input) (st : Items Item)
      → IsSteady rq
      → ((b : Item) → In b st.rows → kind.id_of b < st.next_id)
      → (o : Option Refusal) → is_saved (create_unless kind outcome rq x o st).1 ≡ false
      → (create_unless kind outcome rq x o st).0.rows ≡ st.rows
  unfolding create_item get_item
  create_unless-rows rq x st (u, v) h (some e) = λ s. refl
  create_unless-rows rq x st (u, v) h none = elim (Bool-cases (rq.fails write_item)) [
    | inl e ↦ rw e (λ s. refl)
    | inr e ↦
        rw (e, v)
          (after_create-rows rq x st
            (found_of (find kind.id_of st.next_id (insert_item kind outcome rq.now x st).rows)) u h
            (unfold insert_item in
              ap found_of (
                find-insert kind.id_of st.next_id st.rows (kind.build st.next_id rq.now rq.now x) h
                  (kind.id_of-build st.next_id rq.now rq.now x))))
  ]

  create_body-rows :
      (rq : ItemRequest Input) (b : Option Input) (st : Items Item)
      → IsSteady rq
      → ((a : Item) → In a st.rows → kind.id_of a < st.next_id)
      → is_saved (create_body kind outcome rq b st).1 ≡ false
      → (create_body kind outcome rq b st).0.rows ≡ st.rows
  create_body-rows rq none st z h = λ s. refl
  create_body-rows rq (some x) st z h = create_unless-rows rq x st z h (kind.check_create x)

  -- A creation that does not succeed leaves the rows as they were, whether the input, the store or
  -- the activation is the reason. This wants that the undoing and the reading back of a row do not
  -- fail, and that all ids are below the next one.
  pub item_create-rollback :
      (rq : ItemRequest Input) (st : Items Item)
      → IsSteady rq
      → ((a : Item) → In a st.rows → kind.id_of a < st.next_id)
      → is_saved (item_create kind outcome rq st).1 ≡ false
      → (item_create kind outcome rq st).0.rows ≡ st.rows
  unfolding item_create
  item_create-rollback rq st z h = create_body-rows rq rq.body st z h

  pub write_twice :
      (id now : ℕ) (x : Input) (old : Item) (rows : List Item)
      → ((a : Item) → In a rows → kind.id_of a ≡ id → a ≡ old)
      → map kind.undated (
          replace kind.id_of id
            (rewritten kind outcome now (kind.input_of old))
            (replace kind.id_of id (rewritten kind outcome now x) rows))
        ≡ map kind.undated rows
  unfolding replace rewritten
  write_twice id now x old [] h = refl
  write_twice id now x old (b ∷ rows) h =
      let rest = write_twice id now x old rows (λ a i. h a (inr i)) in
      elim (Bool-cases (kind.id_of b == id)) [
        | inl e ↦
            let same : b ≡ old = h b (inl refl) ((==_iff (kind.id_of b) id).0 e) in
            let own : kind.id_of (rewritten kind outcome now x b) ≡ kind.id_of b =
              kind.id_of-build (kind.id_of b) (kind.created_at b) now x in
            let made : kind.created_at (rewritten kind outcome now x b) ≡ kind.created_at b =
              kind.created_at-build (kind.id_of b) (kind.created_at b) now x in
            let test : (kind.id_of (rewritten kind outcome now x b) == id) ≡ true = rw own e in
            rw e (
              rw test (
                cc (
                  rest,
                  ap
                      (λ k. kind.undated (
                        kind.build k (kind.created_at (rewritten kind outcome now x b)) now
                          (kind.input_of old)))
                      own,
                  ap (λ k. kind.undated (kind.build (kind.id_of b) k now (kind.input_of old))) made,
                  ap
                      (λ o.
                        kind.undated
                          (kind.build (kind.id_of b) (kind.created_at b) now (kind.input_of o)))
                      (sym same),
                  kind.build-input_of b now,
                )))
        | inr e ↦ rw e (rw e (ap (λ l. kind.undated b ∷ l) rest))
      ]
