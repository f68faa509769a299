-- ===== src/Quota/Load.antt =====
-- pkg/server/chat_limiter.go: `loadUsageLocked` and `saveUsageLocked`.
use eqrcp.Base.{
  ◌-◌, ◌*◌, String, Bool, true, false, not, ◌&&◌, ◌||◌, List, ◌∷◌, Option, none, some, ◌=ₛ◌,
  if◌then◌else◌,
}
use eqrcp.Base.Int.{pos, negsuc, leb_ℤ}
use eqrcp.Base.Clock.{Time, second, time_sub}
use eqrcp.Quota.Usage.{
  ChatUsage, no_usage, Host, clock_drift_threshold, compute_usage_mac, mac_valid, rollback_detected,
  last_seen_age,
}

-- What license.go knows at the time of a call.
pub record License : Type 0 where
  pub paid : Bool
  pub tier : String
  pub code_date : String
  pub clock_tampered : Bool

-- What a call finds: the clock (`time.Now()`), the result of `getNetworkTimeOrStartFetch`, the time
-- that `netTimeNow` gives when the file is saved and whether the network time is calibrated, the
-- test switches of the environment, the device's key, the license, and whether a write succeeds.
pub record Moment : Type 0 where
  pub now : Time
  pub net_time : Time
  pub is_online : Bool
  pub net_time_now : Time
  pub is_net_time_cached : Bool
  pub testing : Bool
  pub mock : Option ChatUsage
  pub machine_key : String
  pub license : License
  pub write_ok : Bool

-- The limiter and its file, which holds a usage record, or nothing that can be read as one. `started` are
-- the calls of license.go's `SetClockTampered` that were started on their own (`go`), the last first.
pub record ChatLimiter : Type 0 where
  pub cached_usage : ChatUsage
  pub has_cached : Bool
  pub file : Option ChatUsage
  pub started : List Bool

unfoldable pub invalidate_cache : ChatLimiter → ChatLimiter
invalidate_cache l = record l { has_cached = false }

unfoldable pub check_license_validity : License → ChatUsage → ChatUsage
check_license_validity lic u = record u {
  is_paid = lic.paid;
  license_tier = lic.tier;
  code_date = lic.code_date;
  clock_tampered = lic.clock_tampered;
}

-- What is found in the file: the record, whether it could be used, and whether it was edited.
pub record Found : Type 0 where
  pub usage : ChatUsage
  pub read_ok : Bool
  pub tampered : Bool

abbrev pub reset_counters : ChatUsage → ChatUsage
reset_counters u = record u {
  used_seconds = pos 0;
  used_transfers = pos 0;
  used_receive_transfers = pos 0;
}

abbrev pub lock_counters : ChatUsage → ChatUsage
lock_counters u = record u {
  clock_tampered = true;
  used_seconds = pos 600;
  used_transfers = pos 5;
  used_receive_transfers = pos 5;
}

-- `-threshold <= diff && diff <= threshold`.
abbrev pub in_sync : Moment → Bool
in_sync t =
    let diff = time_sub t.now t.net_time in
    leb_ℤ (negsuc (clock_drift_threshold - 1)) diff && leb_ℤ diff (pos clock_drift_threshold)

-- The usage after the tamper checks, whether the residue of an old lock was cleared, and the value
-- that a call of license.go's `SetClockTampered` is started with, if one is.
pub record Judged : Type 0 where
  pub usage : ChatUsage
  pub residue_cleared : Bool
  pub sets_tampered : Option Bool

unfoldable pub judge : Moment → (rollback tampered old_tampered : Bool) → ChatUsage → Judged
judge t rollback tampered old_tampered u =
    let calibrated = t.is_net_time_cached && not t.testing in
    let alarm : Option Bool = if old_tampered then none else some true in
    let same : Judged = record { usage = u; residue_cleared = false; sets_tampered = none } in
    let full = leb_ℤ (pos 600) u.used_seconds in
    if rollback
    then record {
      usage = record (lock_counters u) { is_paid = false };
      residue_cleared = false;
      sets_tampered = alarm;
    }
    else if tampered
    then record { usage = lock_counters u; residue_cleared = false; sets_tampered = alarm }
    else if u.clock_tampered && calibrated
    then (if in_sync t
        then record {
          usage = record (if full then reset_counters u else u) { clock_tampered = false };
          residue_cleared = false;
          sets_tampered = if old_tampered then some false else none;
        }
        else same)
    else if not u.clock_tampered && (calibrated && full)
    then (if in_sync t
        then record { usage = reset_counters u; residue_cleared = true; sets_tampered = none }
        else same)
    else same

-- What was started, with one more call if there is one.
abbrev pub also_started : Option Bool → List Bool → List Bool
also_started none before = before
also_started (some tampered) before = tampered ∷ before

abbrev differs : Bool → Bool → Bool
differs a b = if a then not b else b

module _ (h : Host) where
  unfoldable pub read_file : ChatLimiter → Moment → Found
  read_file l t = elim l.file [
    | none ↦ record { usage = no_usage; read_ok = false; tampered = false }
    | some u ↦
        if u.date =ₛ ""
        then record { usage = u; read_ok = false; tampered = false }
        else record { usage = u; read_ok = true; tampered = not (mac_valid h u t.machine_key) }
  ]

  -- The record that is written for a usage.
  abbrev pub stamp : Moment → ChatUsage → ChatUsage
  stamp t usage =
      let fresh = record usage {
        last_seen = h.format_rfc3339 t.net_time_now;
        clock_drift = false;
      } in
      record fresh { mac = compute_usage_mac h fresh t.machine_key }

  unfoldable pub save_usage_locked : ChatLimiter → Moment → ChatUsage → ChatLimiter
  save_usage_locked l t usage =
      let drift = usage.clock_drift || l.cached_usage.clock_drift in
      record {
        cached_usage = record (stamp t usage) { clock_drift = drift };
        has_cached = true;
        file = if t.write_ok then some (stamp t usage) else l.file;
        started = l.started;
      }

  -- The usage that the file gives for today, judged.
  unfoldable pub judge_file : ChatLimiter → Moment → Judged
  judge_file l t =
      let found = read_file l t in
      let today = h.format_date t.net_time in
      let changed = not found.read_ok || not (found.usage.date =ₛ today) in
      let dated =
        if changed then record (reset_counters found.usage) { date = today } else found.usage in
      judge t (rollback_detected h found.usage t.net_time) found.tampered found.usage.clock_tampered
        (check_license_validity t.license dated)

  -- Whether the pass writes the file.
  unfoldable pub save_due : ChatLimiter → Moment → Bool
  save_due l t =
      let found = read_file l t in
      let judged = judge_file l t in
      not found.read_ok
      || (not (found.usage.date =ₛ h.format_date t.net_time)
          || (differs found.usage.is_paid judged.usage.is_paid
              || (differs found.usage.clock_tampered judged.usage.clock_tampered
                  || (found.tampered
                      || (rollback_detected h found.usage t.net_time
                          || (judged.residue_cleared
                              || (found.usage.last_seen =ₛ ""
                                  || leb_ℤ (pos (60 * second))
                                      (last_seen_age h t.net_time found.usage.last_seen))))))))

  unfoldable pub reload : ChatLimiter → Moment → ChatLimiter × ChatUsage
  reload l t =
      let judged = judge_file l t in
      let drift = t.is_online && (not t.testing && not (in_sync t)) in
      let usage = record (judged.usage) { last_seen = h.format_rfc3339 t.net_time } in
      let kept =
        if save_due l t
        then save_usage_locked l t usage
        else record l { cached_usage = usage; has_cached = true } in
      (
        record kept {
          cached_usage = record (kept.cached_usage) { clock_drift = drift };
          started = also_started judged.sets_tampered l.started;
        },
        record usage { clock_drift = drift },
      )

  unfoldable pub load_usage_locked : ChatLimiter → Moment → ChatLimiter × ChatUsage
  load_usage_locked l t = elim t.mock [
    | some u ↦ (l, u)
    | none ↦
        if l.has_cached && l.cached_usage.date =ₛ h.format_date t.net_time
        then (l, check_license_validity t.license l.cached_usage)
        else reload l t
  ]
