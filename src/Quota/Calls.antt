-- ===== src/Quota/Calls.antt =====
-- pkg/server/chat_limiter.go: the calls on the limiter.
use eqrcp.Base.{String, Bool, false, not, ◌&&◌, ◌||◌, ◌=ₛ◌, if◌then◌else◌}
use eqrcp.Base.Int.{ℤ, pos, ltb_ℤ, leb_ℤ}
use eqrcp.Base.Int64.{add64}
use eqrcp.Quota.Usage.{ChatUsage, Host, free_chat_daily_seconds}
use eqrcp.Quota.Load.{ChatLimiter, Moment, save_usage_locked, load_usage_locked}

-- The body of a reply of the usage server whose signature holds.
pub record SyncUsageResponse : Type 0 where
  pub success : Bool
  pub usage_date : String
  pub used_seconds : ℤ
  pub used_transfers : ℤ
  pub quota_exceeded : Bool
  pub is_paid : Bool
  pub signature_ok : Bool

-- The counters raised to those of the server.
unfoldable pub raise_usage : SyncUsageResponse → ChatUsage → ChatUsage × Bool
raise_usage r u =
    let more_seconds = ltb_ℤ u.used_seconds r.used_seconds in
    let more_transfers = ltb_ℤ u.used_transfers r.used_transfers in
    let seconds = if more_seconds then r.used_seconds else u.used_seconds in
    let exceeded = r.quota_exceeded && ltb_ℤ seconds (pos 600) in
    (
      record u {
        used_seconds = if exceeded then pos 600 else seconds;
        used_transfers = if more_transfers then r.used_transfers else u.used_transfers;
      },
      more_seconds || (more_transfers || exceeded),
    )

module _ (h : Host) where
  unfoldable pub get_status : ChatLimiter → Moment → ChatLimiter × ChatUsage
  get_status l t = load_usage_locked h l t

  unfoldable pub free_chat_degraded : ChatLimiter → Moment → Bool
  free_chat_degraded l t =
      let usage = (get_status l t).1 in
      not usage.is_paid && leb_ℤ free_chat_daily_seconds usage.used_seconds

  -- Load, change, save: the pattern of the setters.
  abbrev edit : (ChatUsage → ChatUsage) → ChatLimiter → Moment → ChatLimiter × ChatUsage
  edit change l t =
      let (loaded, usage) = load_usage_locked h l t in
      (save_usage_locked h loaded t (change usage), change usage)

  -- The same for an unpaid user only; the flag tells whether the limit is reached.
  abbrev charge :
      (ChatUsage → ChatUsage)
      → (ChatUsage → Bool)
      → ChatLimiter
      → Moment
      → ChatLimiter × ChatUsage × Bool
  charge change reached l t =
      let (loaded, usage) = load_usage_locked h l t in
      if usage.is_paid
      then (loaded, usage, false)
      else (save_usage_locked h loaded t (change usage), change usage, reached (change usage))

  unfoldable pub increment_usage : ℤ → ChatLimiter → Moment → ChatLimiter × ChatUsage × Bool
  increment_usage seconds =
      charge (λ u. record u { used_seconds = add64 u.used_seconds seconds })
        (λ u. leb_ℤ free_chat_daily_seconds u.used_seconds)

  unfoldable pub increment_transfers : ℤ → ChatLimiter → Moment → ChatLimiter × ChatUsage × Bool
  increment_transfers count =
      charge (λ u. record u { used_transfers = add64 u.used_transfers count })
        (λ u. leb_ℤ (pos 5) u.used_transfers)

  unfoldable pub increment_receive_transfers :
      ℤ → ChatLimiter → Moment → ChatLimiter × ChatUsage × Bool
  increment_receive_transfers count =
      charge (λ u. record u { used_receive_transfers = add64 u.used_receive_transfers count })
        (λ u. leb_ℤ (pos 5) u.used_receive_transfers)

  unfoldable pub set_clock_tampered : Bool → ChatLimiter → Moment → ChatLimiter × ChatUsage
  set_clock_tampered tampered =
      edit (λ u. record u {
        clock_tampered = tampered;
        is_paid = if tampered then false else u.is_paid;
      })

  unfoldable pub set_used_seconds : ℤ → ChatLimiter → Moment → ChatLimiter × ChatUsage
  set_used_seconds seconds = edit (λ u. record u { used_seconds = seconds })

  unfoldable pub set_used_transfers : ℤ → ChatLimiter → Moment → ChatLimiter × ChatUsage
  set_used_transfers transfers = edit (λ u. record u { used_transfers = transfers })

  unfoldable pub set_used_receive_transfers : ℤ → ChatLimiter → Moment → ChatLimiter × ChatUsage
  set_used_receive_transfers transfers = edit (λ u. record u { used_receive_transfers = transfers })

  unfoldable pub apply_sync : SyncUsageResponse → ChatLimiter → Moment → ChatLimiter
  apply_sync r l t =
      if not r.success || (r.is_paid || not r.signature_ok)
      then l
      else (let (loaded, usage) = load_usage_locked h l t in
          let (raised, updated) = raise_usage r usage in
          if usage.date =ₛ r.usage_date && updated
          then save_usage_locked h loaded t raised
          else loaded)
