-- ===== src/Bandwidth/Limit.antt =====
-- pkg/chat/v2/bandwidth: jobs, registration, and the rate that `LimitForJob` allots to a job.
use eqrcp.Base.{◌*◌, String, Bool, ◌&&◌, List, [], ◌∷◌, none, some, length, if◌then◌else◌}
use eqrcp.Base.Int.{ℤ, pos, ltb_ℤ, leb_ℤ, eqb_ℤ}
use eqrcp.Base.Int64.{add64, sub64, mul64, quot64}
use eqrcp.Base.Clock.{Time, zero_time, second}
use eqrcp.Base.Assoc.{lookup, insert, erase, values}
use eqrcp.Base.Float.{Float64}

-- Bytes per second.
pub record Policy : Type 0 where
  pub max_speed : ℤ

abbrev pub default_free_chat_degraded_bytes_per_sec : ℤ
default_free_chat_degraded_bytes_per_sec = pos (100 * 1024)

abbrev pub policy_free_degraded : Policy
policy_free_degraded = record { max_speed = default_free_chat_degraded_bytes_per_sec }

abbrev pub policy_paid : Policy
policy_paid = record { max_speed = pos (100 * 1024 * 1024) }

pub record ActiveJob : Type 0 where
  pub id : String
  pub unrestricted : Bool
  pub rate_cap : ℤ
  pub capacity : ℤ
  pub probing : Bool
  pub probing_start : Time
  pub bytes_at_probing_start : ℤ
  pub probing_bytes_limit : ℤ
  pub probing_time_limit : ℤ
  pub bytes_at_probing_end : ℤ
  pub time_at_probing_end : Time

pub record Scheduler : Type 0 where
  pub global_limit : ℤ
  pub active_jobs : List (String × ActiveJob)
  pub probing_bytes : ℤ
  pub probing_time : ℤ

unfoldable pub new_scheduler : ℤ → Scheduler
new_scheduler global_limit = record {
  global_limit = if leb_ℤ global_limit (pos 0) then pos (10 * 1024 * 1024) else global_limit;
  active_jobs = [];
  probing_bytes = pos 0;
  probing_time = pos 0;
}

abbrev pub policy_speed : Bool → ℤ
policy_speed unrestricted =
    if unrestricted then policy_paid.max_speed else policy_free_degraded.max_speed

-- A Go variable starts at its type's zero value.
unfoldable pub new_job : Scheduler → String → Bool → Time → ActiveJob
new_job s id unrestricted now =
    let rate_cap = policy_speed unrestricted in
    let p_bytes =
      if eqb_ℤ s.probing_bytes (pos 0) then pos (2 * 1024 * 1024) else s.probing_bytes in
    let p_time = if eqb_ℤ s.probing_time (pos 0) then pos (2 * second) else s.probing_time in
    let enable_probing = unrestricted && ltb_ℤ (pos 0) p_bytes in
    record {
      id = id;
      unrestricted = unrestricted;
      rate_cap = rate_cap;
      capacity = if enable_probing then pos 0 else rate_cap;
      probing = enable_probing;
      probing_start = zero_time;
      bytes_at_probing_start = pos 0;
      probing_bytes_limit = p_bytes;
      probing_time_limit = p_time;
      bytes_at_probing_end = pos 0;
      time_at_probing_end = if enable_probing then zero_time else now;
    }

unfoldable pub register_job : Scheduler → String → Bool → Time → Scheduler
register_job s id unrestricted now = record s {
  active_jobs = insert id (new_job s id unrestricted now) s.active_jobs;
}

unfoldable pub unregister_job : Scheduler → String → Scheduler
unregister_job s id = record s { active_jobs = erase id s.active_jobs }

-- `if r > cap { r = cap }` and `if r < floor { r = floor }`.
abbrev pub at_most : ℤ → ℤ → ℤ
at_most cap r = if ltb_ℤ cap r then cap else r

abbrev pub at_least : ℤ → ℤ → ℤ
at_least floor r = if ltb_ℤ r floor then floor else r

abbrev pub fallback_rate : ℤ
fallback_rate = pos (32 * 1024)

-- The starvation floor, never above the job's own cap.
abbrev pub min_floor : ℤ → ℤ
min_floor rate_cap = if ltb_ℤ rate_cap fallback_rate then rate_cap else fallback_rate

-- The running totals of the loop over the active jobs.
pub record Totals : Type 0 where
  pub non_probing_capacity : ℤ
  pub non_probing_count : ℤ
  pub probing_capacity : ℤ

count_job : ActiveJob → Totals → Totals
count_job j t =
    if j.probing
    then record t { probing_capacity = add64 t.probing_capacity estimate }
    else record t {
      non_probing_count = add64 t.non_probing_count (pos 1);
      non_probing_capacity =
          add64 t.non_probing_capacity
            (if ltb_ℤ (pos 0) j.capacity then j.capacity else fallback_rate);
    }
  where
    estimate : ℤ
    estimate =
        if ltb_ℤ (pos 0) j.capacity
        then j.capacity
        else if ltb_ℤ (pos 0) j.rate_cap
        then j.rate_cap
        else policy_speed j.unrestricted

unfoldable pub totals : List ActiveJob → Totals → Totals
unfolding count_job
totals [] t = t
totals (j ∷ js) t = totals js (count_job j t)

-- Step 1, with probing disabled: an equal share.
unfoldable pub legacy_rate : Scheduler → ℤ → ℤ
legacy_rate s rate_cap =
    let n = pos (length s.active_jobs) in
    let rate = quot64 s.global_limit (if leb_ℤ n (pos 0) then pos 1 else n) in
    at_least (min_floor rate_cap) (at_most rate_cap rate)

module _ (fl : Float64) where
  open fl use {of_int64, mul, div, to_int64}

  -- Step 3: a share of what the probing jobs leave, in proportion to the job's capacity.
  unfoldable pub raw_share : Scheduler → ℤ → ℤ
  unfolding totals
  raw_share s job_capacity =
      let zeros : Totals = record {
        non_probing_capacity = pos 0;
        non_probing_count = pos 0;
        probing_capacity = pos 0;
      } in
      let t = totals (values s.active_jobs) zeros in
      let guarantee = mul64 (mul64 t.non_probing_count (pos 32)) (pos 1024) in
      let pool = at_least guarantee (sub64 s.global_limit t.probing_capacity) in
      let total = if leb_ℤ t.non_probing_capacity (pos 0) then pos 1 else t.non_probing_capacity in
      to_int64 (mul (of_int64 pool) (div (of_int64 job_capacity) (of_int64 total)))

  unfoldable pub share_rate : Scheduler → ActiveJob → ℤ → ℤ
  share_rate s job rate_cap =
      let job_capacity = if leb_ℤ job.capacity (pos 0) then fallback_rate else job.capacity in
      at_least (min_floor rate_cap)
        (at_most job_capacity (at_most rate_cap (raw_share s job_capacity)))

  unfoldable pub job_rate : Scheduler → ActiveJob → ℤ
  job_rate s job =
      let rate_cap =
        if leb_ℤ job.rate_cap (pos 0) then policy_speed job.unrestricted else job.rate_cap in
      if ltb_ℤ s.probing_bytes (pos 0)
      then legacy_rate s rate_cap
      else if job.probing
      then rate_cap
      else share_rate s job rate_cap

  unfoldable pub limit_for_job : Scheduler → String → ℤ
  limit_for_job s id = elim (lookup id s.active_jobs) [
    | none ↦ fallback_rate
    | some job ↦ job_rate s job
  ]
