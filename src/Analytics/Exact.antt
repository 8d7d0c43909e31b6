-- ===== src/Analytics/Exact.antt =====
-- internal/analytics/tailer.go: proofs on the rounds of the loop.
pub mod Rounds
pub mod Run
use zent_proxy.Base.{
  ℕ, ◌+◌, ◌≡◌, refl, sym, ap, ◌∙◌, subst, inl, inr, Bool, true, Option, none, some, [], ◌++◌,
  append_assoc, arith, ◌==◌, ==_iff, Bool-cases, length, length-append, Text,
}
use zent_proxy.Analytics.Lines.{Codec}
use zent_proxy.Analytics.Tailer.{
  Disk, Handle, Tail, drop, content, file_at, insert_with_offset, rewind, new_handle, active_place,
  flush_pending,
}
use zent_proxy.Analytics.Reading.{drop-append, insert_chunks-all, IsLog}
use zent_proxy.Analytics.Settled.{active_content, IsSettled, store-IsSettled}

drop-at : (n : ℕ) (t a b : Text) → n ≡ length a → t ≡ a ++ b → drop n t ≡ b
drop-at n t a b p q = rw (p, q) (drop-append a b)

plus_zero : (n : ℕ) → n ≡ n + 0
plus_zero n = omega arith

module _ (codec : Codec) where
  abbrev pub Settled : Text → Disk codec → Type 0
  Settled w d = IsSettled codec w d.spool_file d.processing_file d.written_to d.rows d.checkpoint

  -- `m` is what was read behind the checkpoint, whole lines, and its requests are pending.
  pub record IsReading (w : Text) (d : Disk codec) (s : Settled w d) (h : Handle codec)
      : Type 0 where
    pub m : Text
    pub left : Text
    pub rest : s.rest ≡ m ++ left
    pub log : IsLog codec m h.pending
    pub place : h.place ≡ active_place codec d.processing_file
    pub offset : h.offset ≡ length s.stored
    pub position : h.position ≡ length s.stored + length m
    pub read_offset : h.read_offset ≡ length s.stored + length m
    pub unread : h.pending_lines ≡ 0 → m ≡ []

  abbrev pub Reading : (w : Text) (d : Disk codec) → Settled w d → Option (Handle codec) → Type 0
  Reading w d s none = Unit
  Reading w d s (some h) = IsReading w d s h

  abbrev pub Holds : Text → Tail codec → Type 0
  Holds w st = (s : Settled w st.disk) × Reading w st.disk s st.handle

  pub active-file :
      (d : Disk codec) (o : Option Text)
      → d.processing_file ≡ o
      → content (file_at codec (active_place codec o) d) ≡ active_content d.spool_file o
  active-file d none e = refl
  active-file d (some t) e = ap content e

  pub reading-file :
      (w : Text) (d : Disk codec) (s : Settled w d) (h : Handle codec)
      → IsReading w d s h
      → content (file_at codec h.place d) ≡ active_content d.spool_file d.processing_file
  reading-file w d s h i =
      ap (λ p. content (file_at codec p d)) i.place ∙ active-file d d.processing_file refl

  pub drop-reading :
      (w : Text) (d : Disk codec) (s : Settled w d) (h : Handle codec) (i : IsReading w d s h)
      (t : Text)
      → t ≡ active_content d.spool_file d.processing_file
      → drop h.position t ≡ i.left
  drop-reading w d s h i t e =
      drop-at h.position t (s.stored ++ i.m) i.left (i.position ∙ sym (length-append s.stored i.m))
        (e ∙ s.active ∙ ap (λ x. s.stored ++ x) i.rest ∙ sym (append_assoc s.stored i.m i.left))

  pub rewind-IsReading :
      (w : Text) (d : Disk codec) (s : Settled w d) (h : Handle codec)
      → IsReading w d s h
      → IsReading w d s (rewind codec h)
  unfolding rewind
  rewind-IsReading w d s h i = record {
    m = [];
    left = s.rest;
    rest = refl;
    log = IsLog.empty refl refl;
    place = i.place;
    offset = i.offset;
    position = omega (arith, i.offset);
    read_offset = omega (arith, i.offset);
    unread = λ q. refl;
  }

  pub new_handle-IsReading :
      (w : Text) (d : Disk codec) (s : Settled w d)
      → IsReading w d s (new_handle codec (active_place codec d.processing_file) d.checkpoint)
  unfolding new_handle
  new_handle-IsReading w d s = record {
    m = [];
    left = s.rest;
    rest = refl;
    log = IsLog.empty refl refl;
    place = refl;
    offset = s.checkpoint;
    position = omega (arith, s.checkpoint);
    read_offset = omega (arith, s.checkpoint);
    unread = λ q. refl;
  }

  -- what `flushPending` leaves: the file as it was, and after a success nothing pending
  pub record Flushed (w t : Text) (r : Bool × (Handle codec × Disk codec)) : Type 0 where
    pub settled : Settled w r.1.1
    pub reading : IsReading w r.1.1 settled r.1.0
    pub file : t ≡ active_content r.1.1.spool_file r.1.1.processing_file
    pub flushed : r.0 ≡ true → reading.m ≡ []

  flush-Settled :
      (w : Text) (d : Disk codec) (s : Settled w d) (h : Handle codec)
      → IsReading w d s h
      → Settled w (insert_with_offset codec h.read_offset h.pending d)
  unfolding insert_with_offset
  flush-Settled w d s h i =
      subst
        (λ rows. IsSettled codec w d.spool_file d.processing_file d.written_to rows h.read_offset)
        (sym (insert_chunks-all codec h.pending d.rows))
        (subst (IsSettled codec w d.spool_file d.processing_file d.written_to (d.rows ++ h.pending))
          (sym i.read_offset)
          (store-IsSettled codec w d.spool_file d.processing_file d.written_to d.rows d.checkpoint s
            i.m i.left h.pending i.rest i.log))

  pub flush_pending-Flushed :
      (fails : Bool) (w t : Text) (d : Disk codec) (s : Settled w d) (h : Handle codec)
      → IsReading w d s h
      → t ≡ active_content d.spool_file d.processing_file
      → Flushed w t (flush_pending codec fails h d)
  unfolding flush_pending insert_with_offset
  flush_pending-Flushed fails w t d s h i e = elim (Bool-cases (h.pending_lines == 0)) [
    | inl z ↦ rw z (record {
      settled = s;
      reading = i;
      file = e;
      flushed = λ q. i.unread ((==_iff h.pending_lines 0).0 z);
    })
    | inr z ↦ rw z (elim (Bool-cases fails) [
      | inl f ↦ rw f (record { settled = s; reading = i; file = e; flushed = λ q. absurd (cc) })
      | inr f ↦ rw f (
          let s' : Settled w (insert_with_offset codec h.read_offset h.pending d) =
            flush-Settled w d s h i in
          record {
            settled = s';
            reading = record {
              m = [];
              left = s'.rest;
              rest = refl;
              log = IsLog.empty refl refl;
              place = i.place;
              offset = s'.checkpoint;
              position =
                  i.position ∙ sym i.read_offset ∙ s'.checkpoint ∙ plus_zero (length s'.stored);
              read_offset = s'.checkpoint ∙ plus_zero (length s'.stored);
              unread = λ q. refl;
            };
            file = e;
            flushed = λ q. refl;
          })
    ])
  ]
