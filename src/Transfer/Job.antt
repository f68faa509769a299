-- ===== src/Transfer/Job.antt =====
-- pkg/chat/v2/transfer/job.go, with the states and the event of pkg/chat/v2/protocol/events.go.
-- A method that changes the job returns the new record; `now` is what `time.Now()` returns.
use eqrcp.Base.{◌*◌, String, Bool, true, false, not, ◌&&◌, ◌||◌, ◌=ₛ◌, if◌then◌else◌}
use eqrcp.Base.Int.{ℤ, pos, ltb_ℤ, leb_ℤ, eqb_ℤ}
use eqrcp.Base.Clock.{Time, zero_time, time_sub, millisecond}
use eqrcp.Base.Float.{Float64}

pub data TransferState : Type 0 where
  queued running completed failed cancelled : TransferState

abbrev pub state_eq : TransferState → TransferState → Bool
state_eq queued queued = true
state_eq running running = true
state_eq completed completed = true
state_eq failed failed = true
state_eq cancelled cancelled = true
state_eq _ _ = false

pub record Job : Type 0 where
  pub token : String
  pub id : String
  pub message_id : String
  pub client_id : String
  pub file_name : String
  pub bytes_done : ℤ
  pub bytes_total : ℤ
  pub state : TransferState
  pub error : String
  pub updated_at : Time
  pub last_pct : ℤ
  pub last_sent_time : Time

pub record TransferEvent : Type 0 where
  pub id : String
  pub message_id : String
  pub client_id : String
  pub file_name : String
  pub bytes_done : ℤ
  pub bytes_total : ℤ
  pub percent : ℤ
  pub state : TransferState
  pub error : String
  pub updated_at : Time

unfoldable pub new_job : (token id message_id client_id file_name : String) → ℤ → Time → Job
new_job token id message_id client_id file_name bytes_total now = record {
  token = token;
  id = id;
  message_id = message_id;
  client_id = client_id;
  file_name = file_name;
  bytes_done = pos 0;
  bytes_total = bytes_total;
  state = queued;
  error = "";
  updated_at = now;
  last_pct = pos 0;
  last_sent_time = zero_time;
}

abbrev pub is_terminal_state : TransferState → Bool
is_terminal_state s = state_eq s completed || state_eq s failed || state_eq s cancelled

unfoldable pub update_state : Job → TransferState → String → Time → Job × Bool
update_state j state err_str now =
    if is_terminal_state j.state
    then (j, false)
    else if state_eq j.state state && j.error =ₛ err_str
    then (j, false)
    else (record j { state = state; error = err_str; updated_at = now }, true)

unfoldable pub set_bytes_total : Job → ℤ → Job × Bool
set_bytes_total j bytes_total =
    if is_terminal_state j.state then (j, false) else (record j { bytes_total = bytes_total }, true)

module _ (fl : Float64) where
  open fl use {of_int64, mul, div, to_int64}

  -- `int(float64(done) / float64(total) * 100)`, at most 100.
  unfoldable pub percent : ℤ → ℤ → ℤ
  percent done total =
      let pct = to_int64 (mul (div (of_int64 done) (of_int64 total)) (of_int64 (pos 100))) in
      if ltb_ℤ (pos 0) total then (if ltb_ℤ (pos 100) pct then pos 100 else pct) else pos 0

  unfoldable pub to_event : Job → TransferEvent
  to_event j = record {
    id = j.id;
    message_id = j.message_id;
    client_id = j.client_id;
    file_name = j.file_name;
    bytes_done = j.bytes_done;
    bytes_total = j.bytes_total;
    percent = percent j.bytes_done j.bytes_total;
    state = j.state;
    error = j.error;
    updated_at = j.updated_at;
  }

  unfoldable pub update_progress : Job → ℤ → Time → Job × Bool
  update_progress j bytes_done now =
      let pct = percent bytes_done j.bytes_total in
      let moved = record j { bytes_done = bytes_done; updated_at = now } in
      if is_terminal_state j.state
      then (j, false)
      else if not (eqb_ℤ pct j.last_pct)
          || leb_ℤ (pos (200 * millisecond)) (time_sub now j.last_sent_time)
      then (record moved { last_pct = pct; last_sent_time = now }, true)
      else (moved, false)
