-- ===== src/Analytics/Exact/Run.antt =====
-- internal/analytics/tailer.go: proofs on runs of the loop.
use zent_proxy.Base.{ℕ, ◌≡◌, false, Option, none, some, List, [], ◌∷◌, ◌++◌, true, Text}
use zent_proxy.Analytics.Lines.{Codec, RawRequest}
use zent_proxy.Analytics.Tailer.{
  Place, spool, Disk, Tail, Event, append, turn, restart, round, happen,
}
use zent_proxy.Analytics.Reading.{requests_in}
use zent_proxy.Analytics.Exact.{Settled, Reading}
use zent_proxy.Analytics.Exact.Rounds.{has_log, IsSteady}

abbrev grown : Event → Text
grown (append t) = t
grown e = []

module _ (codec : Codec) where
  -- The resets of the checkpoint, the renaming back and the creation of the log do not fail, and no
  -- file is removed that OpenResty has open still.
  abbrev pub IsSteadyEvent : ℕ → Event → Tail codec → Type 0
  IsSteadyEvent max (turn r) st =
      IsSteady r × (has_log (round codec max r st).disk.written_to ≡ true)
  IsSteadyEvent max (restart fails) st = fails ≡ false
  IsSteadyEvent max e st = Unit

  -- for each event of a run, in the state that it finds
  abbrev pub AreSteady : ℕ → List Event → Tail codec → Type 0
  AreSteady max [] st = Unit
  AreSteady max (e ∷ es) st = IsSteadyEvent max e st × AreSteady max es (happen codec max e st)

  abbrev disk_of :
      Option Text → Option Text → Option Place → List (RawRequest codec) → ℕ → Disk codec
  disk_of sf pf place rows cp = record {
    spool_file = sf;
    processing_file = pf;
    written_to = place;
    rows = rows;
    checkpoint = cp;
  }

  -- a start with an empty log
  abbrev pub fresh : Tail codec
  fresh = record {
    disk = record {
      spool_file = some [];
      processing_file = none;
      written_to = some spool;
      rows = [];
      checkpoint = 0;
    };
    handle = none;
  }

  -- a front of what was written, whose requests are the stored rows
  pub record IsStored (w : Text) (rows : List (RawRequest codec)) : Type 0 where
    pub front : Text
    pub rest : Text
    pub split : w ≡ front ++ rest
    pub rows_in : rows ≡ requests_in codec front
