-- ===== src/License/Memory.antt =====
-- pkg/server/license.go: the paid status in memory and its setters, with `SetPaidDetails` of
-- chat_limiter.go, which brings the allowance and the hosted chat in line with it.
use eqrcp.Base.{
  String, Bool, true, false, not, ◌&&◌, List, ◌∷◌, Option, none, some, ◌=ₛ◌, if◌then◌else◌,
}
use eqrcp.Base.Clock.{Time}
use eqrcp.Quota.Usage.{ChatUsage, Host}
use eqrcp.Quota.Load.{
  Moment, License as LicenseView, ChatLimiter, load_usage_locked, save_usage_locked,
}
use eqrcp.Quota.Calls.{set_clock_tampered as limiter_set_clock_tampered}
use eqrcp.Chat.{TextLibrary, ChatSession}
use eqrcp.Chat.Messages.{add_system_message_locked}
use eqrcp.License.{LicenseCertificate}

-- The variables under paidStateMu.
pub record PaidState : Type 0 where
  pub is_paid : Bool
  pub tier : String
  pub code_date : String
  pub is_tampered : Bool
  pub license_ready : Bool

-- hardware.go: the device's id from the server, and whether it was looked up.
pub record Authority : Type 0 where
  pub authority_device_id : String
  pub authority_device_id_checked : Bool

-- The certificate's file, which holds a certificate or nothing that can be read as one, and its cache.
-- `events` are the calls of the callbacks for the paid status, the last first.
pub record App : Type 0 where
  pub memory : PaidState
  pub file : Option LicenseCertificate
  pub cached_license : Option LicenseCertificate
  pub has_cached_license : Bool
  pub server_dev_authorized : Bool
  pub authority : Authority
  pub limiter : ChatLimiter
  pub active_session : Option ChatSession
  pub events : List (Bool × String)

unfoldable pub get_paid_status : App → Bool
get_paid_status s = if s.memory.is_tampered then false else s.memory.is_paid

unfoldable pub get_license_tier : App → String
get_license_tier s = s.memory.tier

unfoldable pub get_code_date : App → String
get_code_date s = s.memory.code_date

unfoldable pub get_clock_tampered_status : App → Bool
get_clock_tampered_status s = s.memory.is_tampered

unfoldable pub is_license_ready : App → Bool
is_license_ready s = s.memory.license_ready

-- What the limiter reads of the license.
abbrev pub view : PaidState → LicenseView
view m = record {
  paid = if m.is_tampered then false else m.is_paid;
  tier = m.tier;
  code_date = m.code_date;
  clock_tampered = m.is_tampered;
}

-- The moment of a call on the limiter: its license is the one in memory.
abbrev pub seen_by : PaidState → Moment → Moment
seen_by m t = record t { license = view m }

abbrev pub notify_paid_status_callbacks : App → Bool → String → App
notify_paid_status_callbacks s paid tier = record s { events = (paid, tier) ∷ s.events }

-- `strings.ToUpper` is `to_upper`.
unfoldable pub tier_text : (to_upper : String → String) → (tier code_date : String) → String
tier_text to_upper tier code_date =
    if tier =ₛ ""
    then "PRO"
    else if tier =ₛ "PLUS"
    then (if code_date =ₛ "LIFETIME" then "PLUS U" else "PLUS")
    else if tier =ₛ "PRO"
    then "PRO"
    else to_upper tier

-- `codeDate` and `tier` are kept only while paid.
abbrev pub paid_caches : PaidState → Bool → (code_date tier : String) → PaidState
paid_caches m paid code_date tier = record m {
  is_paid = paid;
  tier = if paid then tier else "";
  code_date = if paid then code_date else "";
}

abbrev pub with_details : ChatUsage → Bool → (redeemed_at code_date tier : String) → ChatUsage
with_details u paid redeemed_at code_date tier = record u {
  is_paid = paid;
  redeemed_at = redeemed_at;
  code_date = code_date;
  license_tier = tier;
  clock_tampered = if paid then false else u.clock_tampered;
}

module _ (x : TextLibrary) (to_upper : String → String) where
  -- The message in the hosted chat, when the status changes.
  unfoldable pub announce :
      Option ChatSession
      → (old_paid paid : Bool) → (tier code_date : String) → Time
      → Option ChatSession
  announce none old_paid paid tier code_date now = none
  announce (some session) old_paid paid tier code_date now =
      let activated =
        x.concat "Premium activated: " (x.concat (tier_text to_upper tier code_date) ".") in
      if paid && not old_paid
      then some (add_system_message_locked x session activated now)
      else if not paid && old_paid
      then some (add_system_message_locked x session "License reset. Back to free tier." now)
      else some session

module _ (h : Host) (x : TextLibrary) (to_upper : String → String) where
  unfoldable pub set_paid_details :
      App → Bool → (redeemed_at code_date tier : String) → Moment → App × ChatUsage
  set_paid_details s paid redeemed_at code_date tier t =
      let memory = paid_caches s.memory paid code_date tier in
      let at = seen_by memory t in
      let (loaded, usage) = load_usage_locked h s.limiter at in
      let changed = with_details usage paid redeemed_at code_date tier in
      (
        record s {
          memory = memory;
          limiter = save_usage_locked h loaded at changed;
          active_session =
              announce x to_upper s.active_session usage.is_paid paid tier code_date t.now;
        },
        changed,
      )

  unfoldable pub set_paid_status : App → Bool → (redeemed_at code_date tier : String) → Moment → App
  set_paid_status s paid redeemed_at code_date tier t =
      let caches = paid_caches s.memory paid code_date tier in
      let memory = record caches {
        is_tampered = if paid then false else caches.is_tampered;
        license_ready = if paid then true else caches.license_ready;
      } in
      notify_paid_status_callbacks
        (set_paid_details (record s { memory = memory }) paid redeemed_at code_date tier t).0 paid
        tier

  unfoldable pub set_clock_tampered : App → Bool → Moment → App
  set_clock_tampered s tampered t =
      let memory = record s.memory {
        is_tampered = tampered;
        is_paid = if tampered then false else s.memory.is_paid;
      } in
      let s' = record s {
        memory = memory;
        limiter = (limiter_set_clock_tampered h tampered s.limiter (seen_by memory t)).0;
      } in
      let paid = memory.is_paid && not memory.is_tampered in
      let unchanged = if s.memory.is_tampered then tampered else not tampered in
      if unchanged then s' else notify_paid_status_callbacks s' paid memory.tier

unfoldable pub set_license_ready : App → Bool → App
set_license_ready s ready =
    let memory = record s.memory { license_ready = ready } in
    notify_paid_status_callbacks (record s { memory = memory })
      (memory.is_paid && not memory.is_tampered) memory.tier
