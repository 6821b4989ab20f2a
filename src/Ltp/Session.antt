-- ===== src/Ltp/Session.antt =====
-- include/ltp_cla/ltp_session.h: the state of one session, and its key in the map of sessions.
use qpsk_b.Base.{ℕ, ◌≡◌, ◌↔◌, Bool, true, ◌&&◌, List, [], ◌==◌, arith}
use qpsk_b.Base.Assoc.{Eq}
use qpsk_b.Ltp.Segment.{ReceptionClaim}

pub data SessionRole : Type 0 where
  originator receiver : SessionRole

pub data SessionState : Type 0 where
  active completed cancelled : SessionState

pub record LtpSession : Type 0 where
  pub engine_id : ℕ
  pub session_number : ℕ
  pub role : SessionRole
  pub state : SessionState
  pub client_data : List ℕ
  pub total_data_length : ℕ
  pub is_red : Bool
  pub reception_tracker : List ReceptionClaim
  pub checkpoint_serial_counter : ℕ
  pub report_serial_counter : ℕ
  pub retransmission_count : ℕ

-- The default member initialisers.
abbrev pub new_session : LtpSession
new_session = record {
  engine_id = 0;
  session_number = 0;
  role = originator;
  state = active;
  client_data = [];
  total_data_length = 0;
  is_red = true;
  reception_tracker = [];
  checkpoint_serial_counter = 0;
  report_serial_counter = 0;
  retransmission_count = 0;
}

pub record SessionKey : Type 0 where
  pub engine_id : ℕ
  pub session_number : ℕ

abbrev pub key : ℕ → ℕ → SessionKey
key engine_id session_number = record { engine_id = engine_id; session_number = session_number }

-- `SessionKey::operator==`.
abbrev pub same_key : SessionKey → SessionKey → Bool
same_key a b = a.engine_id == b.engine_id && a.session_number == b.session_number

pub same_key_iff : (a b : SessionKey) → (same_key a b ≡ true) ↔ (a ≡ b)
same_key_iff a b = ground arith

instance abbrev pub session_key_eq : Eq SessionKey
session_key_eq = record { beq = same_key; beq_iff = same_key_iff }
