-- ===== src/Bandwidth/Throttle.antt =====
-- pkg/chat/v2/bandwidth/scheduler.go: `Throttle`, with the probing phase and the sleep.
use eqrcp.Base.{◌*◌, String, false, ◌&&◌, ◌||◌, Option, none, some, if◌then◌else◌}
use eqrcp.Base.Int.{ℤ, pos, ltb_ℤ, leb_ℤ}
use eqrcp.Base.Int64.{sub64, mul64, quot64}
use eqrcp.Base.Clock.{Time, is_zero, second, time_sub}
use eqrcp.Base.Assoc.{lookup, insert}
use eqrcp.Base.Float.{Float64}
use eqrcp.Bandwidth.Limit.{ActiveJob, Scheduler, at_most, at_least, limit_for_job}

abbrev pub warm_up_limit : Scheduler → ℤ
warm_up_limit s = if leb_ℤ (pos (256 * 1024)) s.probing_bytes then pos (128 * 1024) else pos 0

-- `time.Duration(bytes) * time.Second / time.Duration(limit)`.
unfoldable pub expected_time : ℤ → ℤ → ℤ
expected_time bytes limit = quot64 (mul64 bytes (pos second)) limit

-- The time that the caller is made to sleep, if `time.Sleep` is called.
unfoldable pub sleep_time : ℤ → ℤ → ℤ → Option ℤ
unfolding expected_time
sleep_time bytes elapsed limit =
    let expected = expected_time bytes limit in
    if leb_ℤ limit (pos 0)
    then none
    else if ltb_ℤ elapsed expected
    then some (at_most (pos second) (sub64 expected elapsed))
    else none

module _ (fl : Float64) where
  open fl use {of_int64, div, to_int64, seconds}

  -- `int64(float64(bytesProbed) / elapsed.Seconds())`.
  abbrev measured : ℤ → ℤ → ℤ
  measured bytes_probed elapsed = to_int64 (div (of_int64 bytes_probed) (seconds elapsed))

  unfoldable pub finish_probing : ActiveJob → ℤ → Time → ℤ → ℤ → ActiveJob
  finish_probing job total now elapsed bytes_probed =
      let raw = if ltb_ℤ (pos 0) elapsed then measured bytes_probed elapsed else job.capacity in
      let floor = if job.unrestricted then pos (10 * 1024 * 1024) else pos (2 * 1024 * 1024) in
      let capped = ltb_ℤ (pos 0) job.rate_cap in
      let min_capacity = if capped then at_most job.rate_cap floor else floor in
      let raised = at_least min_capacity raw in
      record job {
        capacity = if capped then at_most job.rate_cap raised else raised;
        probing = false;
        bytes_at_probing_end = total;
        time_at_probing_end = now;
      }

  -- One call during the probing phase.
  unfoldable pub probe_step : Scheduler → ActiveJob → ℤ → Time → ActiveJob
  probe_step s job total now =
      let elapsed = time_sub now job.probing_start in
      let bytes_probed = sub64 total job.bytes_at_probing_start in
      if is_zero job.probing_start
      then (if ltb_ℤ total (warm_up_limit s)
          then job
          else record job { probing_start = now; bytes_at_probing_start = total })
      else if leb_ℤ job.probing_bytes_limit bytes_probed || leb_ℤ job.probing_time_limit elapsed
      then finish_probing job total now elapsed bytes_probed
      else if ltb_ℤ (pos 0) elapsed && ltb_ℤ (pos 0) bytes_probed
      then record job { capacity = measured bytes_probed elapsed }
      else job

  unfoldable pub throttle_sleep : Scheduler → String → ActiveJob → ℤ → Time → Time → Option ℤ
  throttle_sleep s id job total start now =
      let limit = limit_for_job fl s id in
      if ltb_ℤ s.probing_bytes (pos 0)
      then sleep_time total (time_sub now start) limit
      else sleep_time (sub64 total job.bytes_at_probing_end) (time_sub now job.time_at_probing_end)
          limit

  unfoldable pub throttle : Scheduler → String → ℤ → Time → Time → Scheduler × Option ℤ
  throttle s id total start now = elim (lookup id s.active_jobs) [
    | none ↦ (s, none)
    | some job ↦
        if leb_ℤ (pos 0) s.probing_bytes && job.probing
        then (record s { active_jobs = insert id (probe_step s job total now) s.active_jobs }, none)
        else (s, throttle_sleep s id job total start now)
  ]
