-- ===== src/Analytics/Tailer.antt =====
-- internal/analytics/tailer.go: the loop that reads the log, with the checkpoint and the batches of
-- internal/db/store.go.
use zent_proxy.Base.{
  ℕ, zero, suc, ◌+◌, Bool, true, false, not, ◌&&◌, Option, none, some, List, [], ◌∷◌, ◌++◌, ltb,
  leb, ◌==◌, if◌then◌else◌, length, Text,
}
use zent_proxy.Strings.Trim.{is_nil, trim_space}
use zent_proxy.Analytics.Lines.{
  Codec, RawRequest, any_part, uses_zent_loop, first_float, upstream_millis, request_of,
  parse_log_line,
}

-- The file that OpenResty appends to, and the same file once it was renamed.
pub data Place : Type 0 where
  spool processing : Place

-- What outlives the loop: the two files, which of them OpenResty has open, and the store.
pub record Disk (codec : Codec) : Type 0 where
  pub spool_file : Option Text
  pub processing_file : Option Text
  -- the name of the file that OpenResty has open, and `none` once that file was removed
  pub written_to : Option Place
  -- every row that was inserted, the oldest first
  pub rows : List (RawRequest codec)
  pub checkpoint : ℕ

-- the variables of the loop while a file is open
pub record Handle (codec : Codec) : Type 0 where
  pub place : Place
  pub offset : ℕ
  pub read_offset : ℕ
  -- how far the reader is in the file
  pub position : ℕ
  pub pending : List (RawRequest codec)
  pub pending_lines : ℕ

pub record Tail (codec : Codec) : Type 0 where
  pub disk : Disk codec
  pub handle : Option (Handle codec)

-- What fails during one round of the loop.
pub record Round : Type 0 where
  -- `os.Open`, `AnalyticsOffset` or `Stat` while the file is opened
  pub open_fails : Bool
  pub seek_fails : Bool
  pub read_fails : Bool
  pub flush_fails : Bool
  pub stat_fails : Bool
  pub remove_fails : Bool
  pub rename_fails : Bool
  pub reopen_fails : Bool
  pub rename_back_fails : Bool
  -- `os.OpenFile` of a log that is missing, whose error is dropped
  pub create_fails : Bool
  -- `SetAnalyticsOffset`, whose error is dropped
  pub reset_fails : Bool

abbrev pub batch_size : ℕ
batch_size = 250

unfoldable pub take_rows : {A : Type 0} → ℕ → List A → List A
take_rows zero xs = []
take_rows (suc n) [] = []
take_rows (suc n) (x ∷ xs) = x ∷ take_rows n xs

-- the file behind a position, and the requests behind a chunk
unfoldable pub drop : {A : Type 0} → ℕ → List A → List A
drop zero xs = xs
drop (suc n) [] = []
drop (suc n) (x ∷ xs) = drop n xs

abbrev pub push_byte : ℕ → Option Text → Option Text
push_byte c none = none
push_byte c (some l) = some (c ∷ l)

-- `ReadString('\n')`: a line with its end, or none at the end of the file
unfoldable pub read_string : Text → Option Text
read_string [] = none
read_string (c ∷ s) =
    let rest = push_byte c (read_string s) in if c == b'\n' then some (c ∷ []) else rest

abbrev pub content : Option Text → Text
content none = []
content (some t) = t

abbrev pub is_there : Option Text → Bool
is_there none = false
is_there (some t) = true

-- where the open file is once the log is renamed, renamed back, and the renamed file removed
abbrev pub moved : Option Place → Option Place
moved none = none
moved (some spool) = some processing
moved (some processing) = none

abbrev pub moved_back : Option Place → Option Place
moved_back none = none
moved_back (some spool) = none
moved_back (some processing) = some spool

abbrev pub unlinked : Option Place → Option Place
unlinked none = none
unlinked (some spool) = some spool
unlinked (some processing) = none

-- `append` is what OpenResty writes, `switch` that it opens its log again, which it does some time
-- after the signal, or as it starts, `stop` the end of the context, and `restart` a start of the
-- program, with or without a stop before it.
pub data Event : Type 0 where
  append : Text → Event
  switch : Event
  turn : Round → Event
  stop : Bool → Event
  restart : Bool → Event

-- what OpenResty writes, all in all
unfoldable pub written : List Event → Text
written [] = []
written (append t ∷ es) = t ++ written es
written (e ∷ es) = written es

module _ (codec : Codec) where
  abbrev pub file_at : Place → Disk codec → Option Text
  file_at spool d = d.spool_file
  file_at processing d = d.processing_file

  -- 50 rows with one statement; the loop runs at most once for each request
  unfoldable pub insert_chunks :
      ℕ → List (RawRequest codec) → List (RawRequest codec) → List (RawRequest codec)
  insert_chunks zero requests rows = rows
  insert_chunks (suc fuel) [] rows = rows
  insert_chunks (suc fuel) (q ∷ qs) rows =
      insert_chunks fuel (drop 50 (q ∷ qs)) (rows ++ take_rows 50 (q ∷ qs))

  -- `store.InsertRawRequestsWithOffset`: the rows and the checkpoint in one transaction
  unfoldable pub insert_with_offset : ℕ → List (RawRequest codec) → Disk codec → Disk codec
  insert_with_offset offset requests d = record d {
    rows = insert_chunks (length requests) requests d.rows;
    checkpoint = offset;
  }

  unfoldable pub set_offset : Bool → Disk codec → Disk codec
  set_offset fails d = if fails then d else record d { checkpoint = 0 }

  -- `f.Seek(offset, io.SeekStart)`, a new reader and `resetPending()`
  unfoldable pub rewind : Handle codec → Handle codec
  rewind h = record h {
    read_offset = h.offset;
    position = h.offset;
    pending = [];
    pending_lines = 0;
  }

  unfoldable pub new_handle : Place → ℕ → Handle codec
  new_handle p offset = record {
    place = p;
    offset = offset;
    read_offset = offset;
    position = offset;
    pending = [];
    pending_lines = 0;
  }

  abbrev pub active_place : Option Text → Place
  active_place none = spool
  active_place (some t) = processing

  abbrev pub seek_to : Round → Place → ℕ → Disk codec → Tail codec
  seek_to r p offset d =
      if r.seek_fails
      then record { disk = d; handle = none }
      else record { disk = d; handle = some (new_handle p offset) }

  -- a checkpoint behind the end of the file counts as 0
  abbrev pub open_file : Round → Place → Option Text → Disk codec → Tail codec
  open_file r p none d = record { disk = d; handle = none }
  open_file r p (some t) d =
      if r.open_fails
      then record { disk = d; handle = none }
      else if ltb (length t) d.checkpoint
      then seek_to r p 0 (set_offset r.reset_fails d)
      else seek_to r p d.checkpoint d

  unfoldable pub open_log : Round → Disk codec → Tail codec
  open_log r d =
      open_file r (active_place d.processing_file) (file_at (active_place d.processing_file) d) d

  abbrev pub add_request :
      Option (RawRequest codec) → List (RawRequest codec) → List (RawRequest codec)
  add_request none pending = pending
  add_request (some q) pending = pending ++ (q ∷ [])

  -- `flushPending()`: whether it gives no error, and the state behind it
  unfoldable pub flush_pending :
      Bool → Handle codec → Disk codec → Bool × (Handle codec × Disk codec)
  flush_pending fails h d =
      if h.pending_lines == 0 then (true, (h, d)) else if fails then (false, (h, d)) else (
        true,
        (
          record h { offset = h.read_offset; pending = []; pending_lines = 0 },
          insert_with_offset h.read_offset h.pending d,
        ),
      )

  abbrev pub or_rewind : Bool × (Handle codec × Disk codec) → Tail codec
  or_rewind (true, (h, d)) = record { disk = d; handle = some h }
  or_rewind (false, (h, d)) = record { disk = d; handle = some (rewind h) }

  unfoldable pub with_line_read : Text → Handle codec → Handle codec
  with_line_read line h = record h {
    read_offset = h.read_offset + length line;
    position = h.position + length line;
    pending = add_request (parse_log_line codec (trim_space line)) h.pending;
    pending_lines = suc h.pending_lines;
  }

  unfoldable pub take_line : Round → Text → Handle codec → Disk codec → Tail codec
  take_line r line h d =
      let next = with_line_read line h in
      if leb batch_size next.pending_lines
      then or_rewind (flush_pending r.flush_fails next d)
      else record { disk = d; handle = some next }

  -- the processed file is removed, and the checkpoint is that of the next file
  unfoldable pub finish_processing : Round → Disk codec → Tail codec
  finish_processing r d = record {
    disk =
        if r.remove_fails
        then d
        else set_offset r.reset_fails
            (record d { processing_file = none; written_to = unlinked d.written_to });
    handle = none;
  }

  -- OpenResty keeps the file open that was renamed, until it opens its log again.
  unfoldable pub renamed : Disk codec → Disk codec
  renamed d = record d {
    spool_file = none;
    processing_file = d.spool_file;
    written_to = moved d.written_to;
  }

  -- `reopenLogs` sends a signal and does not wait until it is followed; the log is created where it
  -- is missing.
  unfoldable pub reopened : Bool → Disk codec → Disk codec
  reopened create_fails d =
      if create_fails then d else record d { spool_file = some (content d.spool_file) }

  -- OpenResty opens its log by its name.
  unfoldable pub switched : Disk codec → Disk codec
  switched d = record d { spool_file = some (content d.spool_file); written_to = some spool }

  unfoldable pub renamed_back : Disk codec → Disk codec
  renamed_back d = record d {
    spool_file = d.processing_file;
    processing_file = none;
    written_to = moved_back d.written_to;
  }

  -- A log that is not there cannot be renamed.
  abbrev pub rotate_file : Round → Option Text → Disk codec → Disk codec
  rotate_file r none d = d
  rotate_file r (some t) d =
      if r.rename_fails
      then d
      else if not r.reopen_fails
      then reopened r.create_fails (renamed d)
      else if r.rename_back_fails
      then renamed d
      else renamed_back (renamed d)

  unfoldable pub rotate : Round → Disk codec → Disk codec
  rotate r d = rotate_file r d.spool_file d

  abbrev pub opened : Round → Tail codec → Option (Handle codec) → Tail codec
  opened r st none = open_log r st.disk
  opened r st (some h) = st

  -- What is written to a file that was removed is lost.
  abbrev pub appended : Text → Option Place → Disk codec → Disk codec
  appended t none d = d
  appended t (some spool) d = record d { spool_file = some (content d.spool_file ++ t) }
  appended t (some processing) d = record d {
    processing_file = some (content d.processing_file ++ t);
  }

  abbrev pub closed : Bool × (Handle codec × Disk codec) → Tail codec
  closed (ok, (h, d)) = record { disk = d; handle = none }

  abbrev pub stopped : Bool → Disk codec → Option (Handle codec) → Tail codec
  stopped fails d none = record { disk = d; handle = none }
  stopped fails d (some h) = closed (flush_pending fails h d)

  unfoldable pub started : Bool → Disk codec → Disk codec
  started reset_fails d = if is_there d.spool_file then d else set_offset reset_fails d

  -- `max_log_bytes` is `maxLogBytes`, where it is positive.
  module _ (max_log_bytes : ℕ) where
    unfoldable pub is_full : Text → Handle codec → Bool
    is_full t h = ltb 0 max_log_bytes && leb max_log_bytes (length t) && leb (length t) h.offset

    -- nothing is left to read: the file is finished, was cut, is rotated or waited for
    abbrev pub at_end : Round → Text → Handle codec → Disk codec → Place → Tail codec
    at_end r t h d processing = finish_processing r d
    at_end r t h d spool =
        if ltb (length t) h.offset
        then record { disk = set_offset r.reset_fails d; handle = none }
        else if is_full t h
        then record { disk = rotate r d; handle = none }
        else record { disk = d; handle = some h }

    -- a part of a line is read again later
    abbrev pub after_flush : Round → Text → Bool × (Handle codec × Disk codec) → Tail codec
    after_flush r t (false, (h, d)) = record { disk = d; handle = some (rewind h) }
    after_flush r t (true, (h, d)) =
        if not (is_nil (drop h.position t))
        then record { disk = d; handle = some (rewind h) }
        else if r.stat_fails
        then record { disk = d; handle = none }
        else at_end r t h d h.place

    abbrev pub after_read : Round → Text → Handle codec → Disk codec → Option Text → Tail codec
    after_read r t h d (some line) = take_line r line h d
    after_read r t h d none = after_flush r t (flush_pending r.flush_fails h d)

    unfoldable pub read : Round → Text → Handle codec → Disk codec → Tail codec
    read r t h d =
        if r.read_fails
        then record { disk = d; handle = some (rewind h) }
        else after_read r t h d (read_string (drop h.position t))

    abbrev pub read_open : Round → Tail codec → Option (Handle codec) → Tail codec
    read_open r st none = st
    read_open r st (some h) = read r (content (file_at h.place st.disk)) h st.disk

    -- one round of the loop
    unfoldable pub round : Round → Tail codec → Tail codec
    round r st = let ready = opened r st st.handle in read_open r ready ready.handle

    unfoldable pub happen : Event → Tail codec → Tail codec
    happen (append t) st = record st { disk = appended t st.disk.written_to st.disk }
    happen switch st = record st { disk = switched st.disk }
    happen (turn r) st = round r st
    happen (stop fails) st = stopped fails st.disk st.handle
    happen (restart fails) st = record { disk = started fails st.disk; handle = none }

    unfoldable pub run : List Event → Tail codec → Tail codec
    run [] st = st
    run (e ∷ es) st = run es (happen e st)

-- Opens the component for a test.
unfoldable pub analytics : Unit {0}
unfolding any_part uses_zent_loop first_float upstream_millis request_of parse_log_line take_rows
    drop read_string insert_chunks insert_with_offset set_offset rewind new_handle open_log
    flush_pending with_line_read take_line finish_processing renamed reopened switched renamed_back
    rotate is_full read round started happen run written
analytics = tt
