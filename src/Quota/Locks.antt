-- ===== src/Quota/Locks.antt =====
-- What locks the counters: a file that was edited and a clock that was set back.
use eqrcp.Base.{
  ◌+◌, ◌<◌, ◌≡◌, ◌≢◌, refl, ap, ◌∙◌, Bool, true, false, ◌&&◌, ◌||◌, none, some, inl, inr,
  Bool-cases, arith, eq_iff, ◌=ₛ◌, if◌then◌else◌,
}
use eqrcp.Base.Int.{pos}
use eqrcp.Base.Clock.{Time}
use eqrcp.Quota.Usage.{ChatUsage, Host, last_seen_tolerance, mac_valid, rollback_detected}
use eqrcp.Quota.Load.{
  Moment, ChatLimiter, read_file, judge, judge_file, save_due, save_usage_locked, reload,
  load_usage_locked, stamp,
}

-- Tampering is noted, and no allowance is left.
abbrev pub IsLocked : ChatUsage → Type 0
IsLocked u =
    (u.clock_tampered ≡ true)
    × (u.used_seconds ≡ pos 600)
    × (u.used_transfers ≡ pos 5)
    × (u.used_receive_transfers ≡ pos 5)

-- The call reads the file: no mock of a test, and no cached record of the day.
abbrev pub ReadsFile : Host → ChatLimiter → Moment → Type 0
ReadsFile h l t =
    (t.mock ≡ none) × (l.has_cached && l.cached_usage.date =ₛ h.format_date t.net_time ≡ false)

-- The answer and the limiter after it are locked, and so is the file if it could be written.
abbrev pub AllLocked : Moment → ChatLimiter × ChatUsage → Type 0
AllLocked t (l, u) =
    IsLocked u
    × IsLocked l.cached_usage
    × (t.write_ok ≡ true → (r : ChatUsage) × (l.file ≡ some r) × IsLocked r)

judge-IsLocked :
    (t : Moment) (rollback tampered old : Bool) (u : ChatUsage)
    → rollback || tampered ≡ true
    → IsLocked (judge t rollback tampered old u).usage
unfolding judge
judge-IsLocked t true b old u e = (refl, refl, refl, refl)
judge-IsLocked t false true old u e = (refl, refl, refl, refl)
judge-IsLocked t false false old u e = ground arith

module _ (h : Host) where
  pub load_reads :
      (l : ChatLimiter) (t : Moment) → ReadsFile h l t → load_usage_locked h l t ≡ reload h l t
  unfolding load_usage_locked
  load_reads l t (no_mock, stale) = rw (no_mock, stale) refl

  pub saved_file :
      (l : ChatLimiter) (t : Moment) (u : ChatUsage)
      → t.write_ok ≡ true
      → (save_usage_locked h l t u).file ≡ some (stamp h t u)
  unfolding save_usage_locked
  saved_file l t u w = ap (λ b. if b then some (stamp h t u) else l.file) w

  save_due_alarm :
      (l : ChatLimiter) (t : Moment)
      → rollback_detected h (read_file h l t).usage t.net_time || (read_file h l t).tampered ≡ true
      → save_due h l t ≡ true
  unfolding save_due
  save_due_alarm l t e = ground arith

  reload-AllLocked :
      (l : ChatLimiter) (t : Moment)
      → rollback_detected h (read_file h l t).usage t.net_time || (read_file h l t).tampered ≡ true
      → AllLocked t (reload h l t)
  unfolding reload save_usage_locked
  reload-AllLocked l t e =
      let locked : IsLocked (judge_file h l t).usage =
        unfold judge_file in judge-IsLocked t _ _ _ _ e in
      rw (save_due_alarm l t e) (
        locked,
        locked,
        λ w. (
          _,
          saved_file l t
              (record ((judge_file h l t).usage) { last_seen = h.format_rfc3339 t.net_time }) w,
          locked,
        ),
      )

  -- A call that reads a file whose signature does not match its fields locks the day: the answer,
  -- the cached record and, if it can be written, the file are marked as tampered with and have no
  -- allowance left.
  pub edited_file_locks :
      (l : ChatLimiter) (t : Moment) (u : ChatUsage)
      → ReadsFile h l t
      → l.file ≡ some u
      → u.date ≢ ""
      → mac_valid h u t.machine_key ≡ false
      → AllLocked t (load_usage_locked h l t)
  unfolding read_file
  edited_file_locks l t u reads e dated bad =
      let tampered : (read_file h l t).tampered ≡ true = rw e (ground (arith, eq_iff u.date "")) in
      rw (load_reads l t reads) (reload-AllLocked l t (ground arith))

  rollback_seen :
      (l : ChatLimiter) (t : Moment) (u : ChatUsage) (seen : Time)
      → l.file ≡ some u
      → u.last_seen ≢ ""
      → h.parse_rfc3339 u.last_seen ≡ some seen
      → t.net_time + last_seen_tolerance < seen
      → rollback_detected h (read_file h l t).usage t.net_time ≡ true
  unfolding rollback_detected read_file
  rollback_seen l t u seen e anchored parsed late = rw e (elim (Bool-cases (u.date =ₛ "")) [
    | inl d ↦ rw (d, parsed) (ground (arith, eq_iff u.last_seen ""))
    | inr d ↦ rw (d, parsed) (ground (arith, eq_iff u.last_seen ""))
  ])

  -- Setting the clock back locks the day: once a call has written the file, a later call that reads
  -- it at a time more than ten minutes before the anchor that the write left answers that the usage
  -- was tampered with and has no allowance left, and keeps so in the cache and the file.
  pub rollback_locks :
      (l l' : ChatLimiter) (t t' : Moment) (u : ChatUsage) (seen : Time)
      → t.write_ok ≡ true
      → h.format_rfc3339 t.net_time_now ≢ ""
      → h.parse_rfc3339 (h.format_rfc3339 t.net_time_now) ≡ some seen
      → l'.file ≡ (save_usage_locked h l t u).file
      → ReadsFile h l' t'
      → t'.net_time + last_seen_tolerance < seen
      → AllLocked t' (load_usage_locked h l' t')
  unfolding save_usage_locked
  rollback_locks l l' t t' u seen written anchored parsed same reads late =
      let e = same ∙ saved_file l t u written in
      let seen_back = rollback_seen l' t' _ seen e anchored parsed late in
      rw (load_reads l' t' reads) (reload-AllLocked l' t' (ground arith))
