-- ===== src/Transfer/Manager.antt =====
-- pkg/chat/v2/transfer/manager.go. A method returns the manager, the events that it hands to the
-- callback, and its error. The jobs that Go changes through their pointers are written back.
use eqrcp.Base.{String, Bool, true, false, ◌&&◌, List, [], ◌∷◌, Option, none, some, if◌then◌else◌}
use eqrcp.Base.Int.{ℤ}
use eqrcp.Base.Clock.{Time}
use eqrcp.Base.Float.{Float64}
use eqrcp.Base.Assoc.{lookup, insert}
use eqrcp.Transfer.Job.{
  running, completed, failed, cancelled, state_eq, Job, TransferEvent, new_job, update_state,
  set_bytes_total, to_event, update_progress,
}

pub data EventType : Type 0 where
  transfer_queued transfer_started transfer_progress : EventType
  transfer_completed transfer_failed transfer_cancelled : EventType

-- `has_callback` is `onStateChange != nil`.
pub record Manager : Type 0 where
  pub jobs : List (String × Job)
  pub has_callback : Bool

-- One call of the callback.
pub record Notice : Type 0 where
  pub token : String
  pub event_type : EventType
  pub event : TransferEvent

-- `job %s not found`.
pub data Error : Type 0 where
  job_not_found : String → Error

pub record Outcome : Type 0 where
  pub manager : Manager
  pub sent : List Notice
  pub error : Option Error

unfoldable pub new_manager : Manager
new_manager = record { jobs = []; has_callback = false }

unfoldable pub register_callback : Manager → Manager
register_callback m = record m { has_callback = true }

unfoldable pub get_job : Manager → String → Option Job
get_job m id = lookup id m.jobs

abbrev unchanged : Manager → Option Error → Outcome
unchanged m e = record { manager = m; sent = []; error = e }

module _ (fl : Float64) where
  -- The job after a method, written back, and the event where the method says that one is due.
  unfoldable pub publish : Manager → String → EventType → Job × Bool → Outcome
  publish m id event_type (job, changed) = record {
    manager = record m { jobs = insert id job m.jobs };
    sent =
        if changed && m.has_callback
        then record { token = job.token; event_type = event_type; event = to_event fl job } ∷ []
        else [];
    error = none;
  }

  unfoldable pub with_job : Manager → String → (Job → Outcome) → Outcome
  with_job m id f = elim (lookup id m.jobs) [
    | none ↦ unchanged m (some (job_not_found id))
    | some job ↦ f job
  ]

  unfoldable pub create_job :
      Manager → (token id message_id client_id file_name : String) → ℤ → Time → Outcome
  create_job m token id message_id client_id file_name bytes_total now =
      publish m id transfer_queued
        (new_job token id message_id client_id file_name bytes_total now, true)

  unfoldable pub start_job : Manager → String → Time → Outcome
  unfolding with_job publish
  start_job m id now =
      with_job m id (λ job. publish m id transfer_started (update_state job running "" now))

  unfoldable pub set_job_bytes_total : Manager → String → ℤ → Outcome
  unfolding with_job publish
  set_job_bytes_total m id bytes_total =
      with_job m id (λ job. publish m id transfer_progress (set_bytes_total job bytes_total))

  unfoldable pub update_job_progress : Manager → String → ℤ → Time → Outcome
  unfolding with_job publish
  update_job_progress m id bytes_done now =
      with_job m id (λ job. publish m id transfer_progress (update_progress fl job bytes_done now))

  unfoldable pub complete_job : Manager → String → Time → Outcome
  unfolding with_job publish
  complete_job m id now =
      with_job m id (λ job. publish m id transfer_completed (update_state job completed "" now))

  -- `err` is `err.Error()`, or nothing where `err` is nil.
  unfoldable pub fail_job : Manager → String → Option String → Time → Outcome
  unfolding with_job publish
  fail_job m id err now =
      let err_str : String = elim err [ none ↦ "" | some e ↦ e ] in
      with_job m id (λ job.
        if state_eq job.state cancelled
        then unchanged m none
        else publish m id transfer_failed (update_state job failed err_str now))

  unfoldable pub cancel_job : Manager → String → Time → Outcome
  unfolding with_job publish
  cancel_job m id now =
      with_job m id (λ job.
        publish m id transfer_cancelled (update_state job cancelled "cancelled by user" now))
