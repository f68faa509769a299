-- ===== src/Quota/Day.antt =====
-- pkg/server/chat_limiter.go: the charges of a day, with the reloads that a finished fetch of the network
-- time forces.
use eqrcp.Base.{
  ◌+◌, ◌≤◌, ◌≡◌, ◌≢◌, refl, ap, ◌∙◌, inl, inr, String, Bool, Bool-cases, true, false, ◌&&◌, List,
  [], ◌∷◌, some, arith, eq_iff, ◌=ₛ◌,
}
use eqrcp.Base.Int.{ℤ, pos, leb_ℤ}
use eqrcp.Base.Int64.{add64}
use eqrcp.Base.Clock.{Time}
use eqrcp.Quota.Usage.{ChatUsage, Host, last_seen_tolerance}
use eqrcp.Quota.Load.{
  Moment, ChatLimiter, read_file, judge, judge_file, reload, load_usage_locked, save_usage_locked,
  check_license_validity, invalidate_cache,
}
use eqrcp.Quota.Calls.{increment_usage}
use eqrcp.Quota.Locks.{load_reads, saved_file}
use eqrcp.Quota.Saved.{save_load_roundtrip}
use eqrcp.Quota.Charges.{IsFreeCall}

-- A charge of some seconds, or a fetch of the network time that has ended.
pub data DayStep : Type 0 where
  charged : (seconds : ℤ) (t : Moment) → DayStep
  refreshed : DayStep

-- The counters of a record of this day.
abbrev pub Counts : (day : String) → (seconds transfers receives : ℤ) → ChatUsage → Type 0
Counts day seconds transfers receives u =
    (u.date ≡ day)
    × (u.used_seconds ≡ seconds)
    × (u.used_transfers ≡ transfers)
    × (u.used_receive_transfers ≡ receives)

abbrev pub total : ℤ → List DayStep → ℤ
total n [] = n
total n (charged seconds t ∷ steps) = total (add64 n seconds) steps
total n (refreshed ∷ steps) = total n steps

judge-date :
    (t : Moment) (rollback tampered old : Bool) (u : ChatUsage)
    → (judge t rollback tampered old u).usage.date ≡ u.date
unfolding judge
judge-date t rollback tampered old u = ground arith

module _ (h : Host) where
  unfoldable pub day_step : ChatLimiter → DayStep → ChatLimiter
  day_step l (charged seconds t) = (increment_usage h seconds l t).0
  day_step l refreshed = invalidate_cache l

  unfoldable pub day_steps : ChatLimiter → List DayStep → ChatLimiter
  day_steps l [] = l
  day_steps l (s ∷ steps) = day_steps (day_step l s) steps

  -- Each charge is one of an unpaid user on the day, by the same device, that can be written, with less than
  -- 600 seconds used before it, not more than ten minutes before the anchor of the last, and its own
  -- anchor is a time that can be read.
  abbrev pub FitsDay : (day key : String) → (seen : Time) → ℤ → List DayStep → Type 0
  FitsDay day key seen n [] = Unit
  FitsDay day key seen n (refreshed ∷ steps) = FitsDay day key seen n steps
  FitsDay day key seen n (charged seconds t ∷ steps) =
      IsFreeCall h day t
      × (t.write_ok ≡ true)
      × (t.machine_key ≡ key)
      × (seen ≤ t.net_time + last_seen_tolerance)
      × (leb_ℤ (pos 600) n ≡ false)
      × ((anchor : Time) × (h.parse_rfc3339 (h.format_rfc3339 t.net_time_now) ≡ some anchor)
          × FitsDay day key anchor (add64 n seconds) steps)

  -- The cached record and the one in the file have these counters.
  abbrev pub Persisted :
      (day key : String) → Time → (seconds transfers receives : ℤ) → ChatLimiter → Type 0
  Persisted day key seen n a b l =
      Counts day n a b l.cached_usage
      × ((l0 : ChatLimiter) × (t0 : Moment) × (u0 : ChatUsage) × (l.file
            ≡ (save_usage_locked h l0 t0 u0).file)
          × (t0.write_ok ≡ true)
          × (t0.machine_key ≡ key)
          × (h.parse_rfc3339 (h.format_rfc3339 t0.net_time_now) ≡ some seen)
          × Counts day n a b u0)

  judge_file-date :
      (l : ChatLimiter) (t : Moment) → (judge_file h l t).usage.date ≡ h.format_date t.net_time
  unfolding judge_file check_license_validity
  judge_file-date l t =
      judge-date t _ _ _ _
      ∙ ground (arith, eq_iff (read_file h l t).usage.date (h.format_date t.net_time))

  reload-date : (l : ChatLimiter) (t : Moment) → (reload h l t).1.date ≡ h.format_date t.net_time
  unfolding reload
  reload-date l t = judge_file-date l t

  load-Counts :
      (day key : String) (seen : Time) (n a b : ℤ) (l : ChatLimiter) (t : Moment)
      → day ≢ ""
      → Persisted day key seen n a b l
      → IsFreeCall h day t
      → t.machine_key ≡ key
      → seen ≤ t.net_time + last_seen_tolerance
      → leb_ℤ (pos 600) n ≡ false
      → Counts day n a b (load_usage_locked h l t).1 × ((load_usage_locked h l t).1.is_paid ≡ false)
  unfolding load_usage_locked check_license_validity
  load-Counts day key seen n a b l t dated (cached, (l0, t0, u0, file, wrote, same, parsed, counts))
        (no_mock, today, unpaid) device early below =
      elim (Bool-cases (l.has_cached && l.cached_usage.date =ₛ h.format_date t.net_time)) [
        | inl held ↦ rw (no_mock, load_usage_locked) (rw held (cached, unpaid))
        | inr stale ↦
            let below0 : leb_ℤ (pos 600) u0.used_seconds ≡ false =
              ap (leb_ℤ (pos 600)) counts.1 ∙ below in
            let (counters, status) =
              save_load_roundtrip h l0 l t0 t u0 seen wrote (ground (arith, counts))
                (counts.0 ∙ (ground arith)) below0 (inl (ground arith)) parsed early file
                (no_mock, stale) in
            let loaded = load_reads h l t (no_mock, stale) in
            let date =
              ap (λ (r : ChatLimiter × ChatUsage). r.1.date) loaded ∙ (reload-date l t ∙ today) in
            (
              (date, counters.0 ∙ counts.1, counters.1 ∙ counts.2, counters.2 ∙ counts.3),
              status ∙ unpaid,
            )
      ]

  charged-Persisted :
      (day key : String) (seen anchor : Time) (n a b seconds : ℤ) (l : ChatLimiter) (t : Moment)
      → day ≢ ""
      → Persisted day key seen n a b l
      → IsFreeCall h day t
      → t.write_ok ≡ true
      → t.machine_key ≡ key
      → seen ≤ t.net_time + last_seen_tolerance
      → leb_ℤ (pos 600) n ≡ false
      → h.parse_rfc3339 (h.format_rfc3339 t.net_time_now) ≡ some anchor
      → Persisted day key anchor (add64 n seconds) a b (increment_usage h seconds l t).0
  unfolding increment_usage
  charged-Persisted day key seen anchor n a b seconds l t dated persisted free wrote device early
        below parsed =
      let (counts, unpaid) =
        load-Counts day key seen n a b l t dated persisted free device early below in
      let (loaded, usage) = load_usage_locked h l t in
      let changed = record usage { used_seconds = add64 usage.used_seconds seconds } in
      let sum : Counts day (add64 n seconds) a b changed =
        (counts.0, ap (λ k. add64 k seconds) counts.1, counts.2, counts.3) in
      let after : (increment_usage h seconds l t).0 ≡ save_usage_locked h loaded t changed =
        rw (unpaid, increment_usage) refl in
      rw after
        (unfold save_usage_locked in sum, (loaded, t, changed, refl, wrote, device, parsed, sum))

  -- Over any charges of a day, with reloads of the file between them, an unpaid user's counter of seconds
  -- ends at its start plus the seconds of every charge, in int64, and the other two counters stay as they
  -- were; the same counters are in the file. It starts from a record of the day that was written. Each
  -- charge comes on this day, on the same device and with less than 600 seconds used before it, can be
  -- written, and its time is not more than ten minutes before the last anchor.
  pub day_steps-total :
      (day key : String) (seen : Time) (n a b : ℤ) (l : ChatLimiter) (steps : List DayStep)
      → day ≢ ""
      → Persisted day key seen n a b l
      → FitsDay day key seen n steps
      → let after = day_steps l steps in
        Counts day (total n steps) a b after.cached_usage
        × ((r : ChatUsage) × (after.file ≡ some r) × Counts day (total n steps) a b r)
  unfolding day_steps day_step
  day_steps-total day key seen n a b l [] dated
        (cached, (l0, t0, u0, file, wrote, same, parsed, counts)) fits =
      (cached, (_, file ∙ saved_file h l0 t0 u0 wrote, counts))
  day_steps-total day key seen n a b l (refreshed ∷ steps) dated persisted fits =
      day_steps-total day key seen n a b (invalidate_cache l) steps dated
        (unfold invalidate_cache in persisted) fits
  day_steps-total day key seen n a b l (charged seconds t ∷ steps) dated persisted
        (free, wrote, device, early, below, (anchor, parsed, rest)) =
      day_steps-total day key anchor (add64 n seconds) a b (increment_usage h seconds l t).0 steps
        dated
        (charged-Persisted day key seen anchor n a b seconds l t dated persisted free wrote device
          early below parsed)
        rest
