-- ===== src/Analytics/Settled.antt =====
-- internal/analytics/tailer.go: proofs on what the files and the store hold between the rounds.
use zent_proxy.Base.{
  ℕ, ◌+◌, ◌≡◌, ◌≢◌, ◌⊎◌, inl, inr, refl, sym, ap, ◌∙◌, true, Option, none, some, List, [], ◌++◌,
  append-nil, append_assoc, length, length-append, Text,
}
use zent_proxy.Analytics.Lines.{Codec, RawRequest}
use zent_proxy.Analytics.Tailer.{Place, spool, processing, content, is_there, moved, moved_back}
use zent_proxy.Analytics.Reading.{IsLog, IsLog-append}

-- the file that is read, and what waits in the other one
abbrev pub active_content : Option Text → Option Text → Text
active_content sf none = content sf
active_content sf (some t) = t

abbrev pub waiting : Option Text → Option Text → Text
waiting sf none = []
waiting sf (some t) = content sf

module _ (codec : Codec) where
  -- The stored rows are the requests of the files that were removed and of the part of the active
  -- file in front of the checkpoint, all of whole lines, and with the rest of the two files that is
  -- all that was written.
  pub record IsSettled (w : Text) (sf pf : Option Text) (place : Option Place)
      (rows : List (RawRequest codec)) (cp : ℕ) : Type 0 where
    pub done : Text
    pub done_rows : List (RawRequest codec)
    pub stored : Text
    pub stored_rows : List (RawRequest codec)
    pub rest : Text
    pub done_log : IsLog codec done done_rows
    pub stored_log : IsLog codec stored stored_rows
    pub active : active_content sf pf ≡ stored ++ rest
    pub stream : w ≡ done ++ (active_content sf pf ++ waiting sf pf)
    pub all_rows : rows ≡ done_rows ++ stored_rows
    pub checkpoint : cp ≡ length stored
    -- OpenResty writes to the log, or still to the renamed file while the new log is empty.
    pub target :
        (place ≡ some spool)
        ⊎ ((place ≡ some processing) × (is_there pf ≡ true) × (content sf ≡ []))
    pub both : is_there pf ≡ true → is_there sf ≡ true

  -- more whole lines are stored
  pub store-IsSettled :
      (w : Text) (sf pf : Option Text) (place : Option Place) (rows : List (RawRequest codec))
      (cp : ℕ) (s : IsSettled w sf pf place rows cp) (m left : Text) (qs : List (RawRequest codec))
      → s.rest ≡ m ++ left
      → IsLog codec m qs
      → IsSettled w sf pf place (rows ++ qs) (length s.stored + length m)
  store-IsSettled w sf pf place rows cp s m left qs e h = record {
    done = s.done;
    done_rows = s.done_rows;
    stored = s.stored ++ m;
    stored_rows = s.stored_rows ++ qs;
    rest = left;
    done_log = s.done_log;
    stored_log = IsLog-append codec s.stored m s.stored_rows qs s.stored_log h;
    active = s.active ∙ ap (λ x. s.stored ++ x) e ∙ sym (append_assoc s.stored m left);
    stream = s.stream;
    all_rows = ap (λ x. x ++ qs) s.all_rows ∙ append_assoc s.done_rows s.stored_rows qs;
    checkpoint = sym (length-append s.stored m);
    target = s.target;
    both = s.both;
  }

  -- OpenResty writes on: what is stored stays, and the rest grows.
  pub append-IsSettled :
      (w t : Text) (sf pf : Option Text) (rows : List (RawRequest codec)) (cp : ℕ)
      (s : IsSettled w sf pf (some spool) rows cp)
      → (after : IsSettled (w ++ t) (some (content sf ++ t)) pf (some spool) rows cp)
        × (after.stored ≡ s.stored)
        × ((x : Text) × (after.rest ≡ s.rest ++ x))
  append-IsSettled w t sf none rows cp s = (
    record {
      done = s.done;
      done_rows = s.done_rows;
      stored = s.stored;
      stored_rows = s.stored_rows;
      rest = s.rest ++ t;
      done_log = s.done_log;
      stored_log = s.stored_log;
      active = ap (λ x. x ++ t) s.active ∙ append_assoc s.stored s.rest t;
      stream =
          ap (λ x. x ++ t) s.stream
          ∙ ap (λ x. (s.done ++ x) ++ t) (append-nil (content sf))
          ∙ append_assoc s.done (content sf) t
          ∙ ap (λ x. s.done ++ x) (sym (append-nil (content sf ++ t)));
      all_rows = s.all_rows;
      checkpoint = s.checkpoint;
      target = inl refl;
      both = λ q. refl;
    },
    refl,
    (t, refl),
  )
  append-IsSettled w t sf (some p) rows cp s = (
    record {
      done = s.done;
      done_rows = s.done_rows;
      stored = s.stored;
      stored_rows = s.stored_rows;
      rest = s.rest;
      done_log = s.done_log;
      stored_log = s.stored_log;
      active = s.active;
      stream =
          ap (λ x. x ++ t) s.stream
          ∙ append_assoc s.done (p ++ content sf) t
          ∙ ap (λ x. s.done ++ x) (append_assoc p (content sf) t);
      all_rows = s.all_rows;
      checkpoint = s.checkpoint;
      target = inl refl;
      both = λ q. refl;
    },
    refl,
    ([], sym (append-nil s.rest)),
  )

  -- OpenResty still writes to the renamed file.
  pub append_late-IsSettled :
      (w t p : Text) (sf : Option Text) (rows : List (RawRequest codec)) (cp : ℕ)
      (s : IsSettled w sf (some p) (some processing) rows cp)
      → content sf ≡ []
      → (after : IsSettled (w ++ t) sf (some (p ++ t)) (some processing) rows cp) × (after.stored
          ≡ s.stored)
        × ((x : Text) × (after.rest ≡ s.rest ++ x))
  append_late-IsSettled w t p sf rows cp s e = (
    record {
      done = s.done;
      done_rows = s.done_rows;
      stored = s.stored;
      stored_rows = s.stored_rows;
      rest = s.rest ++ t;
      done_log = s.done_log;
      stored_log = s.stored_log;
      active = ap (λ x. x ++ t) s.active ∙ append_assoc s.stored s.rest t;
      stream =
          ap (λ x. x ++ t) s.stream
          ∙ ap (λ x. (s.done ++ (p ++ x)) ++ t) e
          ∙ ap (λ x. (s.done ++ x) ++ t) (append-nil p)
          ∙ append_assoc s.done p t
          ∙ ap (λ x. s.done ++ x) (sym (append-nil (p ++ t)))
          ∙ ap (λ x. s.done ++ ((p ++ t) ++ x)) (sym e);
      all_rows = s.all_rows;
      checkpoint = s.checkpoint;
      target = inr (refl, refl, e);
      both = λ q. s.both refl;
    },
    refl,
    (t, refl),
  )

  -- OpenResty opens its log.
  pub switch-IsSettled :
      (w : Text) (sf pf : Option Text) (place : Option Place) (rows : List (RawRequest codec))
      (cp : ℕ) (s : IsSettled w sf pf place rows cp)
      → (after : IsSettled w (some (content sf)) pf (some spool) rows cp) × (after.stored
          ≡ s.stored)
        × (after.rest ≡ s.rest)
  switch-IsSettled w sf none place rows cp s = (
    record {
      done = s.done;
      done_rows = s.done_rows;
      stored = s.stored;
      stored_rows = s.stored_rows;
      rest = s.rest;
      done_log = s.done_log;
      stored_log = s.stored_log;
      active = s.active;
      stream = s.stream;
      all_rows = s.all_rows;
      checkpoint = s.checkpoint;
      target = inl refl;
      both = λ q. refl;
    },
    refl,
    refl,
  )
  switch-IsSettled w sf (some p) place rows cp s = (
    record {
      done = s.done;
      done_rows = s.done_rows;
      stored = s.stored;
      stored_rows = s.stored_rows;
      rest = s.rest;
      done_log = s.done_log;
      stored_log = s.stored_log;
      active = s.active;
      stream = s.stream;
      all_rows = s.all_rows;
      checkpoint = s.checkpoint;
      target = inl refl;
      both = λ q. refl;
    },
    refl,
    refl,
  )

  -- A file that is stored to its end is removed.
  pub remove-IsSettled :
      (w : Text) (sf : Option Text) (p : Text) (rows : List (RawRequest codec)) (cp : ℕ)
      (s : IsSettled w sf (some p) (some spool) rows cp)
      → s.rest ≡ []
      → IsSettled w sf none (some spool) rows 0
  remove-IsSettled w sf p rows cp s e = record {
    done = s.done ++ s.stored;
    done_rows = s.done_rows ++ s.stored_rows;
    stored = [];
    stored_rows = [];
    rest = content sf;
    done_log = IsLog-append codec s.done s.stored s.done_rows s.stored_rows s.done_log s.stored_log;
    stored_log = IsLog.empty refl refl;
    active = refl;
    stream =
        s.stream
        ∙ ap (λ x. s.done ++ (x ++ content sf))
            (s.active ∙ ap (λ x. s.stored ++ x) e ∙ append-nil s.stored)
        ∙ sym (append_assoc s.done s.stored (content sf))
        ∙ ap (λ x. (s.done ++ s.stored) ++ x) (sym (append-nil (content sf)));
    all_rows = s.all_rows ∙ sym (append-nil (s.done_rows ++ s.stored_rows));
    checkpoint = refl;
    target = inl refl;
    both = λ q. absurd (cc);
  }

  -- With no renamed file OpenResty writes to the log.
  not_late :
      (w : Text) (sf : Option Text) (place : Option Place) (rows : List (RawRequest codec)) (cp : ℕ)
      → IsSettled w sf none place rows cp
      → place ≢ some spool
      → ⊥
  not_late w sf place rows cp s n = elim s.target [ inl e ↦ n e | inr (e, there, f) ↦ absurd (cc) ]

  -- The log is renamed, and OpenResty is told to open a new one.
  pub rotate-IsSettled :
      (w t : Text) (sf : Option Text) (place : Option Place) (rows : List (RawRequest codec))
      (cp : ℕ)
      → sf ≡ some t
      → IsSettled w sf none place rows cp
      → IsSettled w (some []) sf (moved place) rows cp
  rotate-IsSettled w t none place rows cp e s = absurd (cc)
  rotate-IsSettled w t (some u) (some spool) rows cp e s = record {
    done = s.done;
    done_rows = s.done_rows;
    stored = s.stored;
    stored_rows = s.stored_rows;
    rest = s.rest;
    done_log = s.done_log;
    stored_log = s.stored_log;
    active = s.active;
    stream = s.stream;
    all_rows = s.all_rows;
    checkpoint = s.checkpoint;
    target = inr (refl, refl, refl);
    both = λ q. refl;
  }
  rotate-IsSettled w t (some u) (some processing) rows cp e s =
      absurd (not_late w (some u) (some processing) rows cp s (λ q. cc))
  rotate-IsSettled w t (some u) none rows cp e s =
      absurd (not_late w (some u) none rows cp s (λ q. cc))

  -- The log is renamed back.
  pub back-IsSettled :
      (w : Text) (sf : Option Text) (place : Option Place) (rows : List (RawRequest codec)) (cp : ℕ)
      → IsSettled w sf none place rows cp
      → IsSettled w sf none (moved_back (moved place)) rows cp
  back-IsSettled w sf (some spool) rows cp s = s
  back-IsSettled w sf (some processing) rows cp s =
      absurd (not_late w sf (some processing) rows cp s (λ q. cc))
  back-IsSettled w sf none rows cp s = absurd (not_late w sf none rows cp s (λ q. cc))
