-- ===== src/Transfer/Run.antt =====
-- Sequences of calls on the transfer Manager, and what one call does to the entries of its map.
use eqrcp.Base.{
  ◌≡◌, refl, ◌≢◌, inl, inr, String, Bool, true, false, List, [], ◌∷◌, ◌++◌, Option, none, some,
  arith, eq_iff, Option-cases, ◌=ₛ◌, if◌then◌else◌,
}
use eqrcp.Base.Int.{ℤ}
use eqrcp.Base.Clock.{Time}
use eqrcp.Base.Float.{Float64}
use eqrcp.Base.Assoc.{lookup, lookup-insert}
use eqrcp.Transfer.Job.{
  running, completed, failed, cancelled, state_eq, Job, new_job, update_state, set_bytes_total,
  update_progress,
}
use eqrcp.Transfer.Manager.{
  job_not_found, EventType, transfer_queued, transfer_started, transfer_progress,
  transfer_completed, transfer_failed, transfer_cancelled, Manager, Notice, Outcome, publish,
  with_job, create_job, start_job, set_job_bytes_total, update_job_progress, complete_job, fail_job,
  cancel_job,
}

pub data Call : Type 0 where
  creates : (token id message_id client_id file_name : String) → ℤ → Time → Call
  starts : String → Time → Call
  sets_total : String → ℤ → Call
  progresses : String → ℤ → Time → Call
  completes : String → Time → Call
  fails : String → Option String → Time → Call
  cancels : String → Time → Call

-- The job that a call is about, and whether the call creates it.
abbrev pub subject : Call → String
subject (creates token id message_id client_id file_name total now) = id
subject (starts id now) = id
subject (sets_total id total) = id
subject (progresses id done now) = id
subject (completes id now) = id
subject (fails id err now) = id
subject (cancels id now) = id

abbrev pub is_create : Call → Bool
is_create (creates token id message_id client_id file_name total now) = true
is_create _ = false

-- The call does not create the job `id` anew.
abbrev pub Spares : String → Call → Type 0
Spares id c = is_create c ≡ true → subject c ≢ id

module _ (fl : Float64) where
  unfoldable pub step : Manager → Call → Outcome
  step m (creates token id message_id client_id file_name total now) =
      create_job fl m token id message_id client_id file_name total now
  step m (starts id now) = start_job fl m id now
  step m (sets_total id total) = set_job_bytes_total fl m id total
  step m (progresses id done now) = update_job_progress fl m id done now
  step m (completes id now) = complete_job fl m id now
  step m (fails id err now) = fail_job fl m id err now
  step m (cancels id now) = cancel_job fl m id now

  -- The manager after the calls, and all the events that were handed to the callback.
  unfoldable pub run : Manager → List Call → Manager × List Notice
  run m [] = (m, [])
  run m (c ∷ cs) = let o = step m c in let (m', sent) = run o.manager cs in (m', o.sent ++ sent)

  -- What a call other than a creation does to the record of its job, and whether it is to be told.
  unfoldable pub effect : Call → Job → Job × Bool
  effect (creates token id message_id client_id file_name total now) j = (j, false)
  effect (starts id now) j = update_state j running "" now
  effect (sets_total id total) j = set_bytes_total j total
  effect (progresses id done now) j = update_progress fl j done now
  effect (completes id now) j = update_state j completed "" now
  effect (fails id err now) j =
      if state_eq j.state cancelled
      then (j, false)
      else update_state j failed (elim err [ none ↦ "" | some e ↦ e ]) now
  effect (cancels id now) j = update_state j cancelled "cancelled by user" now

  abbrev pub event_type : Call → EventType
  event_type (creates token id message_id client_id file_name total now) = transfer_queued
  event_type (starts id now) = transfer_started
  event_type (sets_total id total) = transfer_progress
  event_type (progresses id done now) = transfer_progress
  event_type (completes id now) = transfer_completed
  event_type (fails id err now) = transfer_failed
  event_type (cancels id now) = transfer_cancelled

  -- Every call but a creation, on a job that is there: the map's entries and the events sent.
  pub step_found :
      (m : Manager) (c : Call) (j : Job) (id : String)
      → is_create c ≡ false
      → lookup (subject c) m.jobs ≡ some j
      → (lookup id (step m c).manager.jobs
          ≡ (if subject c =ₛ id then some (effect c j).0 else lookup id m.jobs))
        × ((step m c).sent ≡ (publish fl m (subject c) (event_type c) (effect c j)).sent)
  unfolding step effect publish with_job start_job set_job_bytes_total update_job_progress
      complete_job fail_job cancel_job
  step_found m (starts k now) j id p e =
      ground (arith, lookup-insert k id (update_state j running "" now).0 m.jobs)
  step_found m (sets_total k total) j id p e =
      ground (arith, lookup-insert k id (set_bytes_total j total).0 m.jobs)
  step_found m (progresses k done now) j id p e =
      ground (arith, lookup-insert k id (update_progress fl j done now).0 m.jobs)
  step_found m (completes k now) j id p e =
      ground (arith, lookup-insert k id (update_state j completed "" now).0 m.jobs)
  step_found m (fails k none now) j id p e =
      ground (arith, eq_iff k id, lookup-insert k id (update_state j failed "" now).0 m.jobs)
  step_found m (fails k (some err) now) j id p e =
      ground (arith, eq_iff k id, lookup-insert k id (update_state j failed err now).0 m.jobs)
  step_found m (cancels k now) j id p e =
      ground (arith, lookup-insert k id (update_state j cancelled "cancelled by user" now).0 m.jobs)
  step_found m (creates t k mi ci f total now) j id p e = cc

  -- The same calls on a job that is not there: the manager stays as it is, no event is sent, and
  -- the error names the job.
  pub step_missing :
      (m : Manager) (c : Call)
      → is_create c ≡ false
      → lookup (subject c) m.jobs ≡ none
      → step m c ≡ record { manager = m; sent = []; error = some (job_not_found (subject c)) }
  unfolding step with_job start_job set_job_bytes_total update_job_progress complete_job fail_job
      cancel_job
  step_missing m (creates t k mi ci f total now) p e = cc
  step_missing m (starts k now) p e = ground arith
  step_missing m (sets_total k total) p e = ground arith
  step_missing m (progresses k done now) p e = ground arith
  step_missing m (completes k now) p e = ground arith
  step_missing m (fails k err now) p e = ground arith
  step_missing m (cancels k now) p e = ground arith

  -- A creation: the map's entries and the event sent.
  pub step_create :
      (m : Manager) (t k mi ci f : String) (total : ℤ) (now : Time) (id : String)
      → (lookup id (step m (creates t k mi ci f total now)).manager.jobs
          ≡ (if k =ₛ id then some (new_job t k mi ci f total now) else lookup id m.jobs))
        × ((step m (creates t k mi ci f total now)).sent
            ≡ (publish fl m k transfer_queued (new_job t k mi ci f total now, true)).sent)
  unfolding step create_job publish
  step_create m t k mi ci f total now id =
      (lookup-insert k id (new_job t k mi ci f total now) m.jobs, refl)

  -- A call about one job leaves the record of every other job as it was.
  pub step-lookup_other :
      (m : Manager) (c : Call) (id : String)
      → subject c ≢ id
      → lookup id (step m c).manager.jobs ≡ lookup id m.jobs
  step-lookup_other m (creates t k mi ci f total now) id ne =
      ground (arith, eq_iff k id, step_create m t k mi ci f total now id)
  step-lookup_other m c id ne = elim (Option-cases (lookup (subject c) m.jobs)) [
    | inl e ↦ rw (step_missing m c refl e) refl
    | inr (j, e) ↦ ground (arith, eq_iff (subject c) id, step_found m c j id refl e)
  ]

  -- A call changes whether a callback is registered in no case.
  pub step-has_callback :
      (m : Manager) (c : Call) → (step m c).manager.has_callback ≡ m.has_callback
  unfolding step create_job with_job publish start_job set_job_bytes_total update_job_progress
      complete_job fail_job cancel_job
  step-has_callback m (creates t k mi ci f total now) = refl
  step-has_callback m (fails k err now) = elim (Option-cases (lookup k m.jobs)) [
    | inl e ↦ ground arith
    | inr (j, e) ↦ ground arith
  ]
  step-has_callback m (starts k now) = ground arith
  step-has_callback m (sets_total k total) = ground arith
  step-has_callback m (progresses k done now) = ground arith
  step-has_callback m (completes k now) = ground arith
  step-has_callback m (cancels k now) = ground arith
