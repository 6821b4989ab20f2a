-- ===== src/Ltp/Engine/State.antt =====
-- The state of `LtpEngine`. `effects` lists the calls of the callbacks so far, oldest first; a callback
-- that is not set is not called.
use qpsk_b.Base.{
  ℕ, ◌+◌, Bool, Option, List, [], ◌∷◌, ◌++◌, leb, if◌then◌else◌, length, take, drop, bit_or,
}
use qpsk_b.Base.Assoc.{lookup, insert, erase}
use qpsk_b.Base.Bits.{low_bits, shl64, add64}
use qpsk_b.Base.Result.{Result, ok, err}
use qpsk_b.Ltp.Segment.{SegmentContent, LtpSegment, Fault, out_of_bounds}
use qpsk_b.Ltp.Session.{LtpSession, SessionKey, key, session_key_eq}
use qpsk_b.Ltp.Timer.{TimerManager}

pub record LtpEngineConfig : Type 0 where
  pub local_engine_id : ℕ
  pub remote_engine_id : ℕ
  pub max_segment_size : ℕ
  pub retransmission_timeout_ms : ℕ
  pub max_retransmissions : ℕ
  pub max_concurrent_sessions : ℕ

pub record LtpDiagnostics : Type 0 where
  pub sessions_originated : ℕ
  pub sessions_received : ℕ
  pub sessions_completed : ℕ
  pub sessions_cancelled : ℕ
  pub red_segments_sent : ℕ
  pub red_segments_received : ℕ
  pub green_segments_sent : ℕ
  pub green_segments_received : ℕ
  pub checkpoints_sent : ℕ
  pub reports_received : ℕ
  pub reports_sent : ℕ
  pub report_acks_sent : ℕ
  pub report_acks_received : ℕ
  pub retransmissions : ℕ
  pub cancel_segments_sent : ℕ
  pub cancel_segments_received : ℕ

-- Which of the four callbacks are set.
pub record Callbacks : Type 0 where
  pub data_arrival : Bool
  pub session_complete : Bool
  pub session_failure : Bool
  pub send_segment : Bool

pub data Effect : Type 0 where
  sent : List ℕ → Effect
  delivered : List ℕ → Effect
  session_complete : ℕ → Effect
  session_failure : ℕ → ℕ → Effect

pub record Engine : Type 0 where
  pub config : LtpEngineConfig
  pub session_counter : ℕ
  pub sessions : List (SessionKey × LtpSession)
  pub diagnostics : LtpDiagnostics
  pub timer_manager : Option TimerManager
  pub checkpoint_timers : List (ℕ × ℕ)
  pub report_timers : List (ℕ × ℕ)
  pub callbacks : Callbacks
  pub effects : List Effect

abbrev pub no_diagnostics : LtpDiagnostics
no_diagnostics = record {
  sessions_originated = 0;
  sessions_received = 0;
  sessions_completed = 0;
  sessions_cancelled = 0;
  red_segments_sent = 0;
  red_segments_received = 0;
  green_segments_sent = 0;
  green_segments_received = 0;
  checkpoints_sent = 0;
  reports_received = 0;
  reports_sent = 0;
  report_acks_sent = 0;
  report_acks_received = 0;
  retransmissions = 0;
  cancel_segments_sent = 0;
  cancel_segments_received = 0;
}

-- The constructor, after the setters of the callbacks and the timer manager.
abbrev pub new_engine : LtpEngineConfig → Callbacks → Option TimerManager → Engine
new_engine config callbacks timer_manager = record {
  config = config;
  session_counter = 0;
  sessions = [];
  diagnostics = no_diagnostics;
  timer_manager = timer_manager;
  checkpoint_timers = [];
  report_timers = [];
  callbacks = callbacks;
  effects = [];
}

-- `x++` of a `uint64_t`.
abbrev pub inc64 : ℕ → ℕ
inc64 x = add64 x 1

-- An update of the counters.
abbrev pub count : (LtpDiagnostics → LtpDiagnostics) → Engine → Engine
count f e = record e { diagnostics = f e.diagnostics }

abbrev pub emit : Bool → Effect → Engine → Engine
emit is_set effect e = record e { effects = if is_set then e.effects ++ effect ∷ [] else e.effects }

-- `timer_key`, on 64-bit numbers.
unfoldable pub timer_key : ℕ → ℕ → ℕ
timer_key session_number serial = bit_or (shl64 session_number 32) (low_bits serial 32)

-- `get_session`, which the handlers' own `sessions_.find(key)` does too.
unfoldable pub get_session : ℕ → ℕ → Engine → Option LtpSession
get_session engine_id session_number e = lookup (key engine_id session_number) e.sessions

unfoldable pub active_session_count : Engine → ℕ
active_session_count e = length e.sessions

-- A handler changes a session through a reference into the map.
abbrev pub put_session : SessionKey → LtpSession → Engine → Engine
put_session k session e = record e { sessions = insert k session e.sessions }

abbrev pub erase_session : SessionKey → Engine → Engine
erase_session k e = record e { sessions = erase k e.sessions }

-- A segment with the default member initialisers but for the fields given.
abbrev pub segment : ℕ → ℕ → ℕ → SegmentContent → LtpSegment
segment segment_type engine_id session_number content = record {
  version = 0;
  segment_type = segment_type;
  engine_id = engine_id;
  session_number = session_number;
  header_ext_count = 0;
  trailer_ext_count = 0;
  header_extensions = [];
  trailer_extensions = [];
  content = content;
}

-- `assign(begin + offset, begin + offset + len)`: past the end it is undefined behaviour.
unfoldable pub slice : ℕ → ℕ → List ℕ → Result Fault (List ℕ)
slice offset len bytes =
    if leb (offset + len) (length bytes)
    then ok (take len (drop offset bytes))
    else err out_of_bounds
