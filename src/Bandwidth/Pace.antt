-- ===== src/Bandwidth/Pace.antt =====
-- The pace that `Throttle` keeps a registered job at after its probing.
use eqrcp.Base.{ℕ, ◌+◌, ◌-◌, ◌*◌, ◌≤◌, ◌<◌, ◌≡◌, refl, String, false, [], some, arith}
use eqrcp.Base.Int.{pos, ◌≤ℤ◌}
use eqrcp.Base.Int64.{max_int64, sub64, sub64_pos}
use eqrcp.Base.Clock.{Time, second, time_sub}
use eqrcp.Base.Assoc.{lookup}
use eqrcp.Base.Float.{Float64}
use eqrcp.Bandwidth.Limit.{ActiveJob, Scheduler, limit_for_job}
use eqrcp.Bandwidth.Throttle.{throttle, throttle_sleep, sleep_time}
use eqrcp.Bandwidth.Run.{Inv, run}
use eqrcp.Bandwidth.Bounds.{limit_for_job_bounds}
use eqrcp.Bandwidth.Sleep.{Paced, sleep_time-Paced}

time_sub_later :
    (now before : Time)
    → before ≤ now
    → now - before ≤ max_int64
    → time_sub now before ≡ pos (now - before)
unfolding time_sub
time_sub_later now before le fits = ground arith

bytes_since : (from b : ℕ) → from + b ≤ max_int64 → sub64 (pos (from + b)) (pos from) ≡ pos b
bytes_since from b fits = let e = sub64_pos (from + b) from fits (omega arith) in ground (arith, e)

module _ (fl : Float64) where
  limit_positive :
      (s : Scheduler) (id : String) (j : ActiveJob) (l : ℕ)
      → Inv s
      → lookup id s.active_jobs ≡ some j
      → limit_for_job fl s id ≡ pos l
      → 0 < l
  unfolding run
  limit_positive s id j l v there limit =
      let low = (limit_for_job_bounds fl s [] id j v there).0 in ground (arith, low, limit)

  -- `Throttle` paces a registered job that is not probing any more, where the scheduler probes and its jobs
  -- are sane: it changes nothing, and it lets the caller go on at once only where the bytes since the
  -- probing took long enough for the limit that `LimitForJob` gives, and else makes it sleep for the rest
  -- of that time, or for one second where the rest is longer. The counts, the bytes since the probing
  -- times 10⁹ and the time since then must fit in an int64, and the clock must not go back.
  pub throttle-Paced :
      (s : Scheduler) (id : String) (j : ActiveJob) (from b l : ℕ) (start now : Time)
      → Inv s
      → pos 0 ≤ℤ s.probing_bytes
      → lookup id s.active_jobs ≡ some j
      → j.probing ≡ false
      → j.bytes_at_probing_end ≡ pos from
      → limit_for_job fl s id ≡ pos l
      → from + b ≤ max_int64
      → b * second ≤ max_int64
      → j.time_at_probing_end ≤ now
      → now - j.time_at_probing_end ≤ max_int64
      → ((throttle fl s id (pos (from + b)) start now).0 ≡ s)
        × Paced b (now - j.time_at_probing_end) l ((throttle fl s id (pos (from + b)) start now).1)
  unfolding throttle throttle_sleep
  throttle-Paced s id j from b l start now v probes there probed began limit fits fits_time later
        fits_now =
      let e = now - j.time_at_probing_end in
      let sleeps : throttle fl s id (pos (from + b)) start now
          ≡ (s, sleep_time (pos b) (pos e) (pos l)) =
        rw (there, throttle)
          (ground (
            arith,
            bytes_since from b fits,
            time_sub_later now j.time_at_probing_end later fits_now,
            limit,
            began,
            probed,
          )) in
      rw sleeps
        (refl, sleep_time-Paced b e l fits_time fits_now (limit_positive s id j l v there limit))
