-- ===== src/Quota/Charges.antt =====
-- How the counters move: charges add up over the day, and the server's counts only raise them.
use eqrcp.Base.{
  ◌≡◌, ◌↔◌, refl, ◌∙◌, inl, inr, Bool-cases, String, true, false, not, ◌&&◌, ◌||◌, none, some,
  arith, eq_iff, ◌=ₛ◌,
}
use eqrcp.Base.Int.{ℤ, pos, leb_ℤ, ◌≤ℤ◌}
use eqrcp.Base.Int64.{add64}
use eqrcp.Quota.Usage.{ChatUsage, Host, free_chat_daily_seconds}
use eqrcp.Quota.Load.{
  Moment, ChatLimiter, save_usage_locked, load_usage_locked, check_license_validity,
}
use eqrcp.Quota.Saved.{SameCounters}
use eqrcp.Quota.Locks.{saved_file}
use eqrcp.Quota.Calls.{SyncUsageResponse, increment_usage, raise_usage, apply_sync}

-- The limiter holds the record of the day.
abbrev pub HoldsDay : String → ChatLimiter → Type 0
HoldsDay day l = (l.has_cached ≡ true) × (l.cached_usage.date ≡ day)

-- A call of that day by an unpaid user.
abbrev pub IsFreeCall : Host → String → Moment → Type 0
IsFreeCall h day t = (t.mock ≡ none) × (h.format_date t.net_time ≡ day) × (t.license.paid ≡ false)

raise_usage-le :
    (r : SyncUsageResponse) (u : ChatUsage)
    → let (raised, updated) = raise_usage r u in
      (u.used_seconds ≤ℤ raised.used_seconds)
      × (u.used_transfers ≤ℤ raised.used_transfers)
      × (raised.date ≡ u.date)
      × (updated ≡ false → raised.used_seconds ≡ u.used_seconds)
      × (r.quota_exceeded ≡ true → pos 600 ≤ℤ raised.used_seconds)
unfolding raise_usage
raise_usage-le r u = (ground arith, ground arith, refl, λ e. ground arith, λ e. ground arith)

module _ (h : Host) where
  load_cached :
      (day : String) (l : ChatLimiter) (t : Moment)
      → HoldsDay day l
      → t.mock ≡ none
      → h.format_date t.net_time ≡ day
      → load_usage_locked h l t ≡ (l, check_license_validity t.license l.cached_usage)
  unfolding load_usage_locked
  load_cached day l t (cached, same) no_mock today =
      let is_today : (l.cached_usage.date =ₛ h.format_date t.net_time) ≡ true =
        ground (arith, eq_iff l.cached_usage.date (h.format_date t.net_time)) in
      rw (no_mock, cached, is_today) refl

  increment_usage-charged :
      (day : String) (seconds : ℤ) (l : ChatLimiter) (t : Moment)
      → HoldsDay day l
      → IsFreeCall h day t
      → let charged = record (check_license_validity t.license l.cached_usage) {
        used_seconds = add64 l.cached_usage.used_seconds seconds;
      } in
        increment_usage h seconds l t ≡ (
          save_usage_locked h l t charged,
          charged,
          leb_ℤ free_chat_daily_seconds charged.used_seconds,
        )
  unfolding increment_usage check_license_validity
  increment_usage-charged day seconds l t held (no_mock, today, unpaid) =
      rw (load_cached day l t held no_mock today, unpaid) refl

  -- A charge of an unpaid user adds its seconds to the counter of the day and to no other, reports
  -- exactly whether 300 seconds are reached, and is in the file if that could be written.
  pub increment_usage_lem :
      (day : String) (seconds : ℤ) (l : ChatLimiter) (t : Moment)
      → HoldsDay day l
      → IsFreeCall h day t
      → let (after, usage, reached) = increment_usage h seconds l t in
        (usage.used_seconds ≡ add64 l.cached_usage.used_seconds seconds)
        × (usage.used_transfers ≡ l.cached_usage.used_transfers)
        × (usage.used_receive_transfers ≡ l.cached_usage.used_receive_transfers)
        × ((reached ≡ true) ↔ (pos 300 ≤ℤ usage.used_seconds))
        × SameCounters after.cached_usage usage
        × (t.write_ok ≡ true → (r : ChatUsage) × (after.file ≡ some r) × SameCounters r usage)
  unfolding check_license_validity save_usage_locked
  increment_usage_lem day seconds l t held free =
      rw (increment_usage-charged day seconds l t held free) (
        refl,
        refl,
        refl,
        (λ e. ground arith, λ e. ground arith),
        (refl, refl, refl),
        λ w. (
          _,
          saved_file h l t
              (record (check_license_validity t.license l.cached_usage) {
                used_seconds = add64 l.cached_usage.used_seconds seconds;
              })
              w,
          (refl, refl, refl),
        ),
      )

  -- While the record of the day is cached, a reply of the server only raises the counts of seconds and
  -- transfers, is ignored unless it reports success, carries a valid signature and is about an unpaid user, and leaves at
  -- least 600 seconds used when it is for the day and says that the quota is exceeded.
  pub apply_sync-le :
      (day : String) (r : SyncUsageResponse) (l : ChatLimiter) (t : Moment)
      → HoldsDay day l
      → t.mock ≡ none
      → h.format_date t.net_time ≡ day
      → let after = apply_sync h r l t in
        let heeded = r.success && (r.signature_ok && not r.is_paid) in
        (l.cached_usage.used_seconds ≤ℤ after.cached_usage.used_seconds)
        × (l.cached_usage.used_transfers ≤ℤ after.cached_usage.used_transfers)
        × HoldsDay day after
        × (heeded ≡ false → after ≡ l)
        × (heeded ≡ true
            → r.usage_date ≡ day
            → r.quota_exceeded ≡ true
            → pos 600 ≤ℤ after.cached_usage.used_seconds)
  unfolding apply_sync check_license_validity save_usage_locked
  apply_sync-le day r l t held no_mock today =
      let u = check_license_validity t.license l.cached_usage in
      let (more, more_transfers, same_date, kept, full) = raise_usage-le r u in
      rw (load_cached day l t held no_mock today)
        (elim (Bool-cases (not r.success || (r.is_paid || not r.signature_ok))) [
          | inl e ↦ rw e (ground arith, ground arith, held, λ f. refl, λ f. ground arith)
          | inr e ↦ rw e (elim (Bool-cases (u.date =ₛ r.usage_date && (raise_usage r u).1)) [
            | inl f ↦ rw f (
              more,
              more_transfers,
              (refl, same_date ∙ held.1),
              λ g. ground arith,
              λ g d q. full q,
            )
            | inr f ↦ rw f (
              ground arith,
              ground arith,
              held,
              λ g. refl,
              λ g d q. ground (arith, eq_iff l.cached_usage.date r.usage_date),
            )
          ])
        ])
