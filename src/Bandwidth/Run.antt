-- ===== src/Bandwidth/Run.antt =====
-- The scheduler's invariant over any sequence of calls.
use eqrcp.Base.{
  ◌*◌, ◌≡◌, inl, inr, String, Bool, true, false, List, [], ◌∷◌, arith, Option-cases, Bool-cases,
}
use eqrcp.Base.Int.{ℤ, pos, ◌≤ℤ◌}
use eqrcp.Base.Clock.{Time, time_sub}
use eqrcp.Base.Int64.{sub64}
use eqrcp.Base.Assoc.{lookup, Every, Every-lookup, Every-insert, Every-erase}
use eqrcp.Base.Float.{Float64}
use eqrcp.Bandwidth.Limit.{
  ActiveJob, Scheduler, policy_speed, new_job, register_job, unregister_job,
}
use eqrcp.Bandwidth.Throttle.{finish_probing, probe_step, throttle}

-- A degraded job never probes and keeps its cap as its capacity; a job that has finished probing
-- has a capacity between the floor of its class and its cap.
pub record IsSane (j : ActiveJob) : Type 0 where
  pub capped : j.rate_cap ≡ policy_speed j.unrestricted
  pub probes : j.probing ≡ true → j.unrestricted ≡ true
  pub degraded : j.unrestricted ≡ false → j.capacity ≡ j.rate_cap
  pub measured_low :
      j.probing ≡ false → j.unrestricted ≡ true → pos (10 * 1024 * 1024) ≤ℤ j.capacity
  pub measured_high : j.probing ≡ false → j.capacity ≤ℤ j.rate_cap

abbrev pub Inv : Scheduler → Type 0
Inv s = Every IsSane s.active_jobs

new_job-IsSane : (s : Scheduler) (id : String) (u : Bool) (now : Time) → IsSane (new_job s id u now)
unfolding new_job
new_job-IsSane s id true now = ground arith
new_job-IsSane s id false now = ground arith

module _ (fl : Float64) where
  finish_probing-IsSane :
      (j : ActiveJob) (total : ℤ) (now : Time) (elapsed probed : ℤ)
      → j.rate_cap ≡ policy_speed j.unrestricted
      → j.unrestricted ≡ true
      → IsSane (finish_probing fl j total now elapsed probed)
  unfolding finish_probing
  finish_probing-IsSane j total now elapsed probed c u = ground arith

  probe_step-IsSane :
      (s : Scheduler) (j : ActiveJob) (total : ℤ) (now : Time)
      → j.probing ≡ true
      → IsSane j
      → IsSane (probe_step fl s j total now)
  unfolding probe_step
  probe_step-IsSane s j total now p v = ground (
    arith,
    finish_probing-IsSane j total now (time_sub now j.probing_start)
        (sub64 total j.bytes_at_probing_start) v.capped (v.probes p),
  )

  pub data Call : Type 0 where
    registers : String → Bool → Time → Call
    unregisters : String → Call
    throttles : String → ℤ → (start now : Time) → Call

  unfoldable pub step : Scheduler → Call → Scheduler
  step s (registers id u now) = register_job s id u now
  step s (unregisters id) = unregister_job s id
  step s (throttles id total start now) = (throttle fl s id total start now).0

  unfoldable pub run : Scheduler → List Call → Scheduler
  run s [] = s
  run s (c ∷ cs) = run (step s c) cs

  throttle-Inv :
      (s : Scheduler) (id : String) (total : ℤ) (start now : Time)
      → Inv s
      → Inv (throttle fl s id total start now).0
  unfolding throttle
  throttle-Inv s id total start now v = elim (Option-cases (lookup id s.active_jobs)) [
    | inl e ↦ rw (e, throttle) v
    | inr (j, e) ↦ elim (Bool-cases j.probing) [
      | inl p ↦ ground (
        arith,
        Every-insert IsSane id (probe_step fl s j total now) s.active_jobs
            (probe_step-IsSane s j total now p (Every-lookup IsSane id s.active_jobs j v e)) v,
      )
      | inr p ↦ ground arith
    ]
  ]

  pub step-Inv : (s : Scheduler) (c : Call) → Inv s → Inv (step s c)
  unfolding step register_job unregister_job
  step-Inv s (registers id u now) v =
      Every-insert IsSane id (new_job s id u now) s.active_jobs (new_job-IsSane s id u now) v
  step-Inv s (unregisters id) v = Every-erase IsSane id s.active_jobs v
  step-Inv s (throttles id total start now) v = throttle-Inv s id total start now v

  -- From sane jobs, any calls lead to sane jobs: each job's cap is that of its policy, only
  -- unrestricted jobs probe, a degraded job's capacity is its cap, and the capacity of a job that
  -- does not probe is at most its cap and, if it is unrestricted, at least 10 MiB per second.
  pub run-Inv : (s : Scheduler) (cs : List Call) → Inv s → Inv (run s cs)
  unfolding run
  run-Inv s [] v = v
  run-Inv s (c ∷ cs) v = run-Inv (step s c) cs (step-Inv s c v)
