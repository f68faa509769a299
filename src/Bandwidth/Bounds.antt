-- ===== src/Bandwidth/Bounds.antt =====
-- Bounds of the rate that a job is given, and the independence of the jobs.
use eqrcp.Base.{◌≡◌, ◌≢◌, inl, inr, String, List, some, arith, Option-cases, eq_iff, if◌then◌else◌}
use eqrcp.Base.Int.{ℤ, pos, leb_ℤ, ◌≤ℤ◌}
use eqrcp.Base.Assoc.{lookup, Every-lookup, lookup-insert, lookup-erase}
use eqrcp.Base.Float.{Float64}
use eqrcp.Bandwidth.Limit.{
  ActiveJob, Scheduler, policy_speed, fallback_rate, register_job, unregister_job, new_job,
  limit_for_job, at_least, at_most, min_floor, job_rate, legacy_rate, raw_share, share_rate,
}
use eqrcp.Bandwidth.Throttle.{throttle, probe_step}
use eqrcp.Bandwidth.Run.{IsSane, Inv, Call, registers, unregisters, throttles, step, run, run-Inv}

clamp_bounds :
    (cap r : ℤ)
    → fallback_rate ≤ℤ cap
    → (fallback_rate ≤ℤ at_least (min_floor cap) (at_most cap r))
      × (at_least (min_floor cap) (at_most cap r) ≤ℤ cap)
clamp_bounds cap r h = ground arith

clamp_bounds_capacity :
    (cap capacity r : ℤ)
    → fallback_rate ≤ℤ cap
    → (fallback_rate ≤ℤ at_least (min_floor cap) (at_most capacity (at_most cap r)))
      × (at_least (min_floor cap) (at_most capacity (at_most cap r)) ≤ℤ cap)
clamp_bounds_capacity cap capacity r h = ground arith

legacy_rate_bounds :
    (s : Scheduler) (cap : ℤ)
    → fallback_rate ≤ℤ cap
    → (fallback_rate ≤ℤ legacy_rate s cap) × (legacy_rate s cap ≤ℤ cap)
unfolding legacy_rate
legacy_rate_bounds s cap h = clamp_bounds cap _ h

module _ (fl : Float64) where
  share_rate_bounds :
      (s : Scheduler) (j : ActiveJob) (cap : ℤ)
      → fallback_rate ≤ℤ cap
      → (fallback_rate ≤ℤ share_rate fl s j cap) × (share_rate fl s j cap ≤ℤ cap)
  unfolding share_rate
  share_rate_bounds s j cap h =
      let capacity = if leb_ℤ j.capacity (pos 0) then fallback_rate else j.capacity in
      clamp_bounds_capacity cap capacity (raw_share fl s capacity) h

  job_rate_bounds :
      (s : Scheduler) (j : ActiveJob)
      → IsSane j
      → (fallback_rate ≤ℤ job_rate fl s j) × (job_rate fl s j ≤ℤ policy_speed j.unrestricted)
  unfolding job_rate
  job_rate_bounds s j v = ground (
    arith,
    legacy_rate_bounds s (policy_speed j.unrestricted),
    share_rate_bounds s j (policy_speed j.unrestricted),
  )

  -- After any calls on a scheduler whose jobs are sane, `LimitForJob` gives a registered job at
  -- least 32 KiB per second and at most the speed of its policy: 100 KiB per second for a
  -- degraded job, 100 MiB per second for an unrestricted one.
  pub limit_for_job_bounds :
      (s : Scheduler) (cs : List (Call fl)) (id : String) (j : ActiveJob)
      → Inv s
      → lookup id (run fl s cs).active_jobs ≡ some j
      → (fallback_rate ≤ℤ limit_for_job fl (run fl s cs) id)
        × (limit_for_job fl (run fl s cs) id ≤ℤ policy_speed j.unrestricted)
  unfolding limit_for_job
  limit_for_job_bounds s cs id j v e =
      rw (e, limit_for_job)
        (job_rate_bounds (run fl s cs) j (Every-lookup IsSane id _ j (run-Inv fl s cs v) e))

  -- The job that a call is about.
  abbrev subject : Call fl → String
  subject (registers id u now) = id
  subject (unregisters id) = id
  subject (throttles id total start now) = id

  -- A call about one job leaves every other job's record, and the scheduler's settings, as they
  -- were.
  pub step-active_jobs_other :
      (s : Scheduler) (c : Call fl) (id : String)
      → subject c ≢ id
      → (lookup id (step fl s c).active_jobs ≡ lookup id s.active_jobs)
        × ((step fl s c).global_limit ≡ s.global_limit)
        × ((step fl s c).probing_bytes ≡ s.probing_bytes)
        × ((step fl s c).probing_time ≡ s.probing_time)
  unfolding step register_job unregister_job throttle
  step-active_jobs_other s (registers k u now) id ne =
      ground (arith, eq_iff k id, lookup-insert k id (new_job s k u now) s.active_jobs)
  step-active_jobs_other s (unregisters k) id ne =
      ground (arith, eq_iff k id, lookup-erase k id s.active_jobs)
  step-active_jobs_other s (throttles k total start now) id ne =
      elim (Option-cases (lookup k s.active_jobs)) [
        | inl e ↦ ground arith
        | inr (j, e) ↦
            ground
              (arith, eq_iff k id, lookup-insert k id (probe_step fl s j total now) s.active_jobs)
      ]
