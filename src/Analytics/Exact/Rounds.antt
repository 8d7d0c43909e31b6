-- ===== src/Analytics/Exact/Rounds.antt =====
-- internal/analytics/tailer.go: proofs on one round of the loop.
use zent_proxy.Base.{
  ℕ, ◌+◌, ◌<◌, ◌≡◌, refl, sym, ap, ◌∙◌, subst, inl, inr, Bool, true, false, Option, none, some,
  List, [], ◌∷◌, ◌++◌, append_assoc, arith, ltb, leb, Bool-cases, length, length-append, Text,
}
use zent_proxy.Strings.Trim.{is_nil, trim_space}
use zent_proxy.Analytics.Lines.{Codec, RawRequest, parse_log_line}
use zent_proxy.Analytics.Tailer.{
  Place, spool, processing, Disk, Handle, Tail, Round, batch_size, drop, read_string, content,
  file_at, set_offset, active_place, seek_to, open_file, open_log, or_rewind, with_line_read,
  take_line, finish_processing, renamed, reopened, renamed_back, rotate_file, rotate, unlinked,
  opened, is_full, at_end, after_flush, after_read, read, read_open, round,
}
use zent_proxy.Analytics.Reading.{
  IsLine, read_string-IsLine, as_list, add_request-as_list, IsLog, IsLog-append, line-IsLog,
}
use zent_proxy.Analytics.Settled.{
  active_content, IsSettled, remove-IsSettled, rotate-IsSettled, back-IsSettled,
}
use zent_proxy.Analytics.Exact.{
  Settled, IsReading, Reading, Holds, active-file, reading-file, drop-reading, rewind-IsReading,
  new_handle-IsReading, Flushed, flush_pending-Flushed,
}

-- OpenResty has no file open that was removed.
abbrev pub has_log : Option Place → Bool
has_log none = false
has_log (some p) = true

-- The checkpoint is reset, a file is renamed back and a missing log is created where that is tried.
abbrev pub IsSteady : Round → Type 0
IsSteady r = (r.reset_fails ≡ false) × (r.rename_back_fails ≡ false) × (r.create_fails ≡ false)

nil_of_is_nil : (t : Text) → is_nil t ≡ true → t ≡ []
unfolding is_nil
nil_of_is_nil [] h = refl
nil_of_is_nil (c ∷ t) h = absurd (cc)

module _ (codec : Codec) where
  line_log :
      (t line : Text)
      → IsLine t line
      → IsLog codec line (as_list codec (parse_log_line codec (trim_space line)))
  line_log t line k =
      subst (λ x. IsLog codec x (as_list codec (parse_log_line codec (trim_space x)))) (sym k.whole)
        (line-IsLog codec k.body k.lacks)

  with_line_read-IsReading :
      (w : Text) (d : Disk codec) (s : Settled codec w d) (h : Handle codec)
      (i : IsReading codec w d s h) (line : Text)
      → IsLine i.left line
      → IsReading codec w d s (with_line_read codec line h)
  unfolding with_line_read
  with_line_read-IsReading w d s h i line k =
      let len : length (i.m ++ line) ≡ length i.m + length line = length-append i.m line in
      record {
        m = i.m ++ line;
        left = k.rest;
        rest = i.rest ∙ ap (λ x. i.m ++ x) k.front ∙ sym (append_assoc i.m line k.rest);
        log =
            subst (IsLog codec (i.m ++ line))
              (sym (add_request-as_list codec (parse_log_line codec (trim_space line)) h.pending))
              (IsLog-append codec i.m line h.pending _ i.log (line_log i.left line k));
        place = i.place;
        offset = i.offset;
        position = omega (arith, i.position, len);
        read_offset = omega (arith, i.read_offset, len);
        unread = λ q. absurd (omega (arith, q));
      }

  or_rewind-Holds :
      (w t : Text) (r : Bool × (Handle codec × Disk codec))
      → Flushed codec w t r
      → Holds codec w (or_rewind codec r)
  or_rewind-Holds w t (true, (h, d)) f = (f.settled, f.reading)
  or_rewind-Holds w t (false, (h, d)) f =
      (f.settled, rewind-IsReading codec w d f.settled h f.reading)

  take_line-Holds :
      (r : Round) (w t : Text) (d : Disk codec) (s : Settled codec w d) (h : Handle codec)
      (i : IsReading codec w d s h) (line : Text)
      → t ≡ active_content d.spool_file d.processing_file
      → IsLine i.left line
      → Holds codec w (take_line codec r line h d)
  unfolding take_line
  take_line-Holds r w t d s h i line e k =
      let j : IsReading codec w d s (with_line_read codec line h) =
        with_line_read-IsReading w d s h i line k in
      elim (Bool-cases (leb batch_size (with_line_read codec line h).pending_lines)) [
        | inl b ↦ rw b (
            or_rewind-Holds w t _
              (flush_pending-Flushed codec r.flush_fails w t d s (with_line_read codec line h) j e))
        | inr b ↦ rw b (s, j)
      ]

  removed :
      (w : Text) (sf o : Option Text) (place : Option Place) (rows : List (RawRequest codec))
      (cp : ℕ) (s : IsSettled codec w sf o place rows cp)
      → active_place codec o ≡ processing
      → s.rest ≡ []
      → has_log (unlinked place) ≡ true
      → IsSettled codec w sf none (unlinked place) rows 0
  removed w sf none place rows cp s p n k = absurd (cc)
  removed w sf (some t) (some spool) rows cp s p n k = remove-IsSettled codec w sf t rows cp s n
  removed w sf (some t) (some processing) rows cp s p n k = absurd (cc)
  removed w sf (some t) none rows cp s p n k = absurd (cc)

  abbrev Prompt : Text → Tail codec → Type 0
  Prompt w st = has_log st.disk.written_to ≡ true → Holds codec w st

  finish_processing-Settled :
      (r : Round) (w : Text) (d : Disk codec) (s : Settled codec w d)
      → IsSteady r
      → active_place codec d.processing_file ≡ processing
      → s.rest ≡ []
      → has_log (finish_processing codec r d).disk.written_to ≡ true
      → Settled codec w (finish_processing codec r d).disk
  unfolding finish_processing set_offset
  finish_processing-Settled r w d s (z, y, x) p n = elim (Bool-cases r.remove_fails) [
    | inl e ↦ rw e (λ k. s)
    | inr e ↦
        rw (e, z) (removed w d.spool_file d.processing_file d.written_to d.rows d.checkpoint s p n)
  ]

  finish_processing-Holds :
      (r : Round) (w : Text) (d : Disk codec) (s : Settled codec w d)
      → IsSteady r
      → active_place codec d.processing_file ≡ processing
      → s.rest ≡ []
      → Prompt w (finish_processing codec r d)
  unfolding finish_processing
  finish_processing-Holds r w d s z p n k = (finish_processing-Settled r w d s z p n k, tt)

  rotate-Settled :
      (r : Round) (w : Text) (d : Disk codec)
      → Settled codec w d
      → IsSteady r
      → d.processing_file ≡ none
      → Settled codec w (rotate codec r d)
  unfolding rotate reopened renamed renamed_back
  rotate-Settled r w d s (z, y, x) e = go d.spool_file refl
    where
      alone : IsSettled codec w d.spool_file none d.written_to d.rows d.checkpoint
      alone = subst (λ o. IsSettled codec w d.spool_file o d.written_to d.rows d.checkpoint) e s

      go : (o : Option Text) → d.spool_file ≡ o → Settled codec w (rotate_file codec r o d)
      go none q = s
      go (some t) q = elim (Bool-cases r.rename_fails) [
        | inl f ↦ rw f s
        | inr f ↦ elim (Bool-cases r.reopen_fails) [
          | inl g ↦
              rw (f, g, y)
                (back-IsSettled codec w d.spool_file d.written_to d.rows d.checkpoint alone)
          | inr g ↦
              rw (f, g, x)
                (rotate-IsSettled codec w t d.spool_file d.written_to d.rows d.checkpoint q alone)
        ]
      ]

  spool_alone : (o : Option Text) → spool ≡ active_place codec o → o ≡ none
  spool_alone none e = refl
  spool_alone (some t) e = absurd (cc)

  at_end-Holds :
      (max : ℕ) (r : Round) (w t : Text) (d : Disk codec) (s : Settled codec w d) (h : Handle codec)
      → IsReading codec w d s h
      → IsSteady r
      → t ≡ active_content d.spool_file d.processing_file
      → s.rest ≡ []
      → (p : Place) → p ≡ active_place codec d.processing_file
      → Prompt w (at_end codec max r t h d p)
  at_end-Holds max r w t d s h i z e n processing q = finish_processing-Holds r w d s z (sym q) n
  at_end-Holds max r w t d s h i z e n spool q = elim (Bool-cases (ltb (length t) h.offset)) [
    | inl f ↦ absurd (
        let len : length t ≡ length s.stored + length s.rest =
          ap length (e ∙ s.active) ∙ length-append s.stored s.rest in
        let lt : length t < h.offset = ground arith in omega (arith, len, lt, i.offset))
    | inr f ↦ rw f (elim (Bool-cases (is_full codec max t h)) [
      | inl g ↦ rw g (λ k. (rotate-Settled r w d s z (spool_alone d.processing_file q), tt))
      | inr g ↦ rw g (λ k. (s, i))
    ])
  ]

  after_flush-Holds :
      (max : ℕ) (r : Round) (w t : Text) (f : Bool × (Handle codec × Disk codec))
      → Flushed codec w t f
      → IsSteady r
      → Prompt w (after_flush codec max r t f)
  unfolding rotate finish_processing
  after_flush-Holds max r w t (false, (h, d)) f z =
      λ k. (f.settled, rewind-IsReading codec w d f.settled h f.reading)
  after_flush-Holds max r w t (true, (h, d)) f z = elim (Bool-cases (is_nil (drop h.position t))) [
    | inl e ↦ rw e (elim (Bool-cases r.stat_fails) [
      | inl g ↦ rw g (λ k. (f.settled, tt))
      | inr g ↦ rw g (
          at_end-Holds max r w t d f.settled h f.reading z f.file
            (f.reading.rest
              ∙ ap (λ x. x ++ f.reading.left) (f.flushed refl)
              ∙ sym (drop-reading codec w d f.settled h f.reading t f.file)
              ∙ nil_of_is_nil (drop h.position t) e)
            h.place f.reading.place)
    ])
    | inr e ↦ rw e (λ k. (f.settled, rewind-IsReading codec w d f.settled h f.reading))
  ]

  after_read-Holds :
      (max : ℕ) (r : Round) (w t : Text) (d : Disk codec) (s : Settled codec w d) (h : Handle codec)
      (i : IsReading codec w d s h)
      → IsSteady r
      → t ≡ active_content d.spool_file d.processing_file
      → (o : Option Text) → read_string i.left ≡ o
      → Prompt w (after_read codec max r t h d o)
  after_read-Holds max r w t d s h i z e (some line) k =
      λ prompt. take_line-Holds r w t d s h i line e (read_string-IsLine i.left line k)
  after_read-Holds max r w t d s h i z e none k =
      after_flush-Holds max r w t _ (flush_pending-Flushed codec r.flush_fails w t d s h i e) z

  read-Holds :
      (max : ℕ) (r : Round) (w t : Text) (d : Disk codec) (s : Settled codec w d) (h : Handle codec)
      (i : IsReading codec w d s h)
      → IsSteady r
      → t ≡ active_content d.spool_file d.processing_file
      → Prompt w (read codec max r t h d)
  unfolding read rotate finish_processing take_line
  read-Holds max r w t d s h i z e = elim (Bool-cases r.read_fails) [
    | inl f ↦ rw f (λ k. (s, rewind-IsReading codec w d s h i))
    | inr f ↦ rw f (
        after_read-Holds max r w t d s h i z e (read_string (drop h.position t))
          (ap read_string (sym (drop-reading codec w d s h i t e))))
  ]

  seek_to-Holds :
      (r : Round) (w : Text) (d : Disk codec)
      → Settled codec w d
      → Holds codec w (seek_to codec r (active_place codec d.processing_file) d.checkpoint d)
  seek_to-Holds r w d s = elim (Bool-cases r.seek_fails) [
    | inl e ↦ rw e (s, tt)
    | inr e ↦ rw e (s, new_handle-IsReading codec w d s)
  ]

  open_file-Holds :
      (r : Round) (w : Text) (d : Disk codec)
      → Settled codec w d
      → (o : Option Text) → content o ≡ active_content d.spool_file d.processing_file
      → Holds codec w (open_file codec r (active_place codec d.processing_file) o d)
  open_file-Holds r w d s none q = (s, tt)
  open_file-Holds r w d s (some t) q = elim (Bool-cases r.open_fails) [
    | inl e ↦ rw e (s, tt)
    | inr e ↦ rw e (elim (Bool-cases (ltb (length t) d.checkpoint)) [
      | inl f ↦ absurd (
          let len : length t ≡ length s.stored + length s.rest =
            ap length (q ∙ s.active) ∙ length-append s.stored s.rest in
          let lt : length t < d.checkpoint = ground arith in omega (arith, len, lt, s.checkpoint))
      | inr f ↦ rw f (seek_to-Holds r w d s)
    ])
  ]

  open_log-Holds :
      (r : Round) (w : Text) (d : Disk codec)
      → Settled codec w d
      → Holds codec w (open_log codec r d)
  unfolding open_log
  open_log-Holds r w d s =
      open_file-Holds r w d s (file_at codec (active_place codec d.processing_file) d)
        (active-file codec d d.processing_file refl)

  opened-Holds :
      (r : Round) (w : Text) (st : Tail codec) (o : Option (Handle codec))
      → Holds codec w st
      → Holds codec w (opened codec r st o)
  opened-Holds r w st none (s, i) = open_log-Holds r w st.disk s
  opened-Holds r w st (some h) k = k

  read_open-Holds :
      (max : ℕ) (r : Round) (w : Text) (st : Tail codec) (s : Settled codec w st.disk)
      (o : Option (Handle codec))
      → Reading codec w st.disk s st.handle
      → Reading codec w st.disk s o
      → IsSteady r
      → Prompt w (read_open codec max r st o)
  read_open-Holds max r w st s none j i z = λ k. (s, j)
  read_open-Holds max r w st s (some h) j i z =
      read-Holds max r w _ st.disk s h i z (reading-file codec w st.disk s h i)

  pub round-Holds :
      (max : ℕ) (r : Round) (w : Text) (st : Tail codec)
      → Holds codec w st
      → IsSteady r
      → has_log (round codec max r st).disk.written_to ≡ true
      → Holds codec w (round codec max r st)
  unfolding round
  round-Holds max r w st k z =
      let (s, i) = opened-Holds r w st st.handle k in
      read_open-Holds max r w (opened codec r st st.handle) s (opened codec r st st.handle).handle i
        i z
