-- ===== src/Tests/Analytics.antt =====
-- A log that is read, rotated and read on.
use zent_proxy.Base.{ℕ, ◌≡◌, refl, true, false, some, List, [], ◌∷◌, ◌++◌, Text, lit}
use zent_proxy.Base.Int.{pos}
use zent_proxy.Strings.{strings}
use zent_proxy.Analytics.Lines.{Codec, RawRequest}
use zent_proxy.Analytics.Tailer.{
  Round, Event, append, switch, turn, restart, run, analytics, processing, take_rows,
}
use zent_proxy.Analytics.Exact.Run.{fresh}

-- Each line is the name of a host; numbers are milliseconds.
abbrev codec : Codec
codec = record {
  Float = ℕ;
  unmarshal = λ s. some (record {
    ts = [];
    host = s;
    ip = [];
    method = lit "GET";
    path = lit "/";
    query = [];
    status = pos 200;
    bytes = pos 0;
    request_time = [];
    upstream_time = lit "-";
    user_agent = [];
    referer = [];
    http_version = [];
    tls_version = [];
    upstream_addr = lit "10.0.0.7:80, 127.0.0.1:18081";
  });
  parse_time = λ s. some 5;
  parse_float = λ s. (0, false);
  minus_one = 0;
  is_negative = λ n. true;
  millis = λ n. n;
}

abbrev good : Round
good = record {
  open_fails = false;
  seek_fails = false;
  read_fails = false;
  flush_fails = false;
  stat_fails = false;
  remove_fails = false;
  rename_fails = false;
  reopen_fails = false;
  rename_back_fails = false;
  create_fails = false;
  reset_fails = false;
}

-- OpenResty writes a line to the renamed file before it opens the log again.
abbrev events : List Event
events =
    append (lit "a" ++ (10 ∷ lit "b"))
    ∷ turn good
    ∷ turn good
    ∷ append (10 ∷ [])
    ∷ turn (record good { flush_fails = true })
    ∷ turn good
    ∷ append (lit "c" ++ (10 ∷ []))
    ∷ switch
    ∷ turn (record good { flush_fails = true })
    ∷ turn (record good { flush_fails = true })
    ∷ restart false
    ∷ turn good
    ∷ turn good
    ∷ turn good
    ∷ append (lit "d" ++ (10 ∷ []))
    ∷ turn good
    ∷ turn good
    ∷ []

abbrev late_events : List Event
late_events =
    append (lit "a" ++ (10 ∷ []))
    ∷ turn good
    ∷ turn good
    ∷ turn good
    ∷ append (lit "c" ++ (10 ∷ []))
    ∷ switch
    ∷ append (lit "d" ++ (10 ∷ []))
    ∷ turn good
    ∷ turn good
    ∷ []

abbrev hosts_of : List (RawRequest codec) → List Text
hosts_of [] = []
hosts_of (q ∷ qs) = q.host ∷ hosts_of qs

run-rows :
    hosts_of (run codec 3 events (fresh codec)).disk.rows
    ≡ lit "a" ∷ lit "b" ∷ lit "c" ∷ lit "d" ∷ []
unfolding strings analytics
run-rows = refl

run-written_to : (run codec 3 (take_rows 7 events) (fresh codec)).disk.written_to ≡ some processing
unfolding strings analytics
run-written_to = refl

-- The renamed file was removed before OpenResty opened its log, so the line is lost.
run-lost : hosts_of (run codec 2 late_events (fresh codec)).disk.rows ≡ lit "a" ∷ lit "d" ∷ []
unfolding strings analytics
run-lost = refl
