-- ===== src/Examples/Usage.antt =====
-- pkg/server/chat_limiter.go at concrete inputs.
use eqrcp.Base.{
  ℕ, ◌*◌, ◌≡◌, refl, inl, String, true, false, List, [], ◌∷◌, none, some, arith, eq_iff, ltb, ◌=ₛ◌,
  if◌then◌else◌,
}
use Prim.Native.String.{◌++◌ as joined}
use eqrcp.Base.Int.{pos, negsuc, ◌+ℤ◌, ◌≤ℤ◌}
use eqrcp.Base.Int64.{add64, wrap64}
use eqrcp.Base.Clock.{second}
use eqrcp.Quota.Usage.{ChatUsage, no_usage, Host, mac_valid}
use eqrcp.Quota.Load.{Moment, ChatLimiter, stamp, save_usage_locked, load_usage_locked}
use eqrcp.Quota.Calls.{SyncUsageResponse, apply_sync}
use eqrcp.Quota.Locks.{AllLocked, rollback_locks}
use eqrcp.Quota.Saved.{SameCounters, unsigned, save_load_roundtrip, unsigned_file_counts}
use eqrcp.Quota.Charges.{HoldsDay, apply_sync-le}
use eqrcp.Quota.Day.{DayStep, charged, refreshed, Counts, total, day_steps, day_steps-total}

-- Two moments have a name: the morning and the evening of one day.
abbrev evening : ℕ
evening = 40_000 * second

abbrev pub go_library : Host
go_library = record {
  hmac_hex = λ key payload. joined key payload;
  show_int = λ n. elim n [ pos m ↦ (if ltb 0 m then "some" else "0") | negsuc m ↦ "negative" ];
  concat = joined;
  format_date = λ t. "day";
  format_rfc3339 = λ t. if ltb t evening then "morning" else "evening";
  parse_rfc3339 = λ s. if s =ₛ "morning" then some 0 else some evening;
}

abbrev pub moment : ℕ → Moment
moment t = record {
  now = t;
  net_time = t;
  is_online = true;
  net_time_now = t;
  is_net_time_cached = false;
  testing = false;
  mock = none;
  machine_key = "device";
  license = record { paid = false; tier = ""; code_date = ""; clock_tampered = false };
  write_ok = true;
}

abbrev today_used : ChatUsage
today_used = record no_usage { date = "day"; used_seconds = pos 120; used_transfers = pos 2 }

abbrev pub limiter : ChatLimiter
limiter = record { cached_usage = today_used; has_cached = true; file = none; started = [] }

abbrev restarted : ChatLimiter
restarted = record {
  cached_usage = no_usage;
  has_cached = false;
  file = (save_usage_locked go_library limiter (moment evening) today_used).file;
  started = [];
}

rollback_locks_example : AllLocked (moment 0) (load_usage_locked go_library restarted (moment 0))
rollback_locks_example =
    rollback_locks go_library limiter restarted (moment evening) (moment 0) today_used evening refl
      (ground (arith, eq_iff "evening" "")) refl refl (refl, refl) (ground arith)

save_load_roundtrip_example :
    let usage = (load_usage_locked go_library restarted (moment evening)).1 in
    SameCounters usage today_used × (usage.is_paid ≡ false)
save_load_roundtrip_example =
    save_load_roundtrip go_library limiter restarted (moment evening) (moment evening) today_used
      evening refl (ground (arith, eq_iff "day" "")) refl refl (inl refl) refl (ground arith) refl
      (refl, refl)

-- The user's edit of the file: nothing used, and no signature.
abbrev edited : ChatUsage
edited = unsigned (stamp go_library (moment evening) today_used) (pos 0) (pos 0) (pos 0)

abbrev cheating : ChatLimiter
cheating = record restarted { file = some edited }

unsigned_file_counts_example :
    let (after, usage) = load_usage_locked go_library cheating (moment 0) in
    SameCounters usage edited
    × ((r : ChatUsage) × (after.file ≡ some r)
        × SameCounters r edited
        × (mac_valid go_library r "device" ≡ true))
unsigned_file_counts_example =
    unsigned_file_counts go_library cheating (moment 0) (moment evening) today_used (pos 0) (pos 0)
      (pos 0) (refl, refl) refl (ground (arith, eq_iff "day" "")) refl refl refl

abbrev steps : List DayStep
steps = charged (pos 10) (moment 0) ∷ refreshed ∷ charged (pos 20) (moment 5) ∷ []

abbrev written : ChatLimiter
written = save_usage_locked go_library limiter (moment 0) today_used

day_steps-total_example :
    let after = day_steps go_library written steps in
    Counts "day" (total (pos 120) steps) (pos 2) (pos 0) after.cached_usage
    × ((r : ChatUsage) × (after.file ≡ some r)
        × Counts "day" (total (pos 120) steps) (pos 2) (pos 0) r)
unfolding save_usage_locked
day_steps-total_example =
    day_steps-total go_library "day" "device" 0 (pos 120) (pos 2) (pos 0) written steps
      (ground (arith, eq_iff "day" ""))
      (
        (refl, refl, refl, refl),
        (limiter, moment 0, today_used, refl, refl, refl, refl, (refl, refl, refl, refl)),
      )
      (
        (refl, refl, refl),
        refl,
        refl,
        ground arith,
        refl,
        (
          0,
          refl,
          (
            (refl, refl, refl),
            refl,
            refl,
            ground arith,
            unfold add64 ◌+ℤ◌ wrap64 in refl,
            (0, refl, tt),
          ),
        ),
      )

abbrev reply : SyncUsageResponse
reply = record {
  success = true;
  usage_date = "day";
  used_seconds = pos 400;
  used_transfers = pos 1;
  quota_exceeded = true;
  is_paid = false;
  signature_ok = true;
}

apply_sync-le_example :
    let after = apply_sync go_library reply limiter (moment 0) in
    let today : String = "day" in
    (pos 120 ≤ℤ after.cached_usage.used_seconds)
    × (pos 2 ≤ℤ after.cached_usage.used_transfers)
    × HoldsDay today after
    × (true ≡ false → after ≡ limiter)
    × (true ≡ true → today ≡ today → true ≡ true → pos 600 ≤ℤ after.cached_usage.used_seconds)
apply_sync-le_example =
    apply_sync-le go_library "day" reply limiter (moment 0) (refl, refl) refl refl
