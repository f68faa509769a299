-- ===== src/Examples/Rates.antt =====
-- pkg/chat/v2/bandwidth at concrete inputs.
use eqrcp.Base.{◌≡◌, refl, true, false, List, [], ◌∷◌, none, some, arith}
use eqrcp.Base.Int.{ℤ, pos, ◌*ℤ◌, ◌-ℤ◌, ◌+ℤ◌, quot, ◌≤ℤ◌}
use eqrcp.Base.Int64.{sub64, wrap64, mul64, add64}
use eqrcp.Base.Clock.{second}
use eqrcp.Base.Float.{Float64}
use eqrcp.Base.Assoc.{lookup, insert}
use eqrcp.Bandwidth.Limit.{
  ActiveJob, Scheduler, new_job, register_job, limit_for_job, job_rate, raw_share, share_rate,
  fallback_rate,
}
use eqrcp.Bandwidth.Throttle.{throttle, probe_step, sleep_time}
use eqrcp.Bandwidth.Run.{Call, registers, throttles, step, run, run-Inv, Inv}
use eqrcp.Bandwidth.Bounds.{limit_for_job_bounds}
use eqrcp.Bandwidth.Sleep.{Paced, sleep_time_overflows}
use eqrcp.Bandwidth.Pace.{throttle-Paced}

-- Whole numbers in place of floats, and seconds without their fraction.
abbrev whole : Float64
whole = record {
  F = ℤ;
  of_int64 = λ n. n;
  mul = ◌*ℤ◌;
  div = quot;
  to_int64 = λ n. n;
  seconds = λ d. quot d (pos second);
}

abbrev start : Scheduler
start = record {
  global_limit = pos 10_485_760;
  active_jobs = [];
  probing_bytes = pos 0;
  probing_time = pos 0;
}

abbrev history : List (Call whole)
history =
    registers "a" true 1000
    ∷ throttles "a" (pos 200_000) 1000 2000
    ∷ registers "b" false 3000
    ∷ throttles "a" (pos 4_000_000) 1000 4_000_002_000
    ∷ []

abbrev degraded : ActiveJob
degraded = record {
  id = "b";
  unrestricted = false;
  rate_cap = pos 102_400;
  capacity = pos 102_400;
  probing = false;
  probing_start = 0;
  bytes_at_probing_start = pos 0;
  probing_bytes_limit = pos 2_097_152;
  probing_time_limit = pos 2_000_000_000;
  bytes_at_probing_end = pos 0;
  time_at_probing_end = 3000;
}

runs : Unit {0}
unfolding run step register_job new_job throttle probe_step limit_for_job job_rate raw_share
    share_rate lookup insert
runs = tt

degraded_found : lookup "b" (run whole start history).active_jobs ≡ some degraded
unfolding runs
degraded_found = refl

limit_for_job_bounds_example :
    (fallback_rate ≤ℤ limit_for_job whole (run whole start history) "b")
    × (limit_for_job whole (run whole start history) "b" ≤ℤ pos 102_400)
limit_for_job_bounds_example =
    limit_for_job_bounds whole start history "b" degraded tt degraded_found

run-Inv_example : Inv (run whole start history)
run-Inv_example = run-Inv whole start history tt

abbrev alone : Scheduler
alone = record start { active_jobs = ("b", degraded) ∷ [] }

alone_limit : limit_for_job whole alone "b" ≡ pos 102_400
unfolding runs ◌*ℤ◌ quot sub64 wrap64 ◌-ℤ◌ mul64 add64 ◌+ℤ◌
alone_limit = refl

throttle-Paced_example :
    let r = throttle whole alone "b" (pos 51_200) 0 100_003_000 in
    (r.0 ≡ alone) × Paced 51_200 100_000_000 102_400 r.1
unfolding runs
throttle-Paced_example =
    throttle-Paced whole alone "b" degraded 0 51_200 102_400 0 100_003_000 (ground arith, tt)
      (omega arith) refl refl refl alone_limit (omega arith) (omega arith) (omega arith)
      (omega arith)

sleep_time_overflows_example :
    (sleep_time (pos 10_000_000_000) (pos second) (pos 102_400) ≡ none)
    × ¬ Paced 10_000_000_000 second 102_400
        (sleep_time (pos 10_000_000_000) (pos second) (pos 102_400))
sleep_time_overflows_example =
    sleep_time_overflows 10_000_000_000 second 102_400 (omega arith) (omega arith) (omega arith)
