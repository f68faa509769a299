-- ===== src/Quota/Usage.antt =====
-- pkg/server/chat_limiter.go: the usage record, its signature, and the checks of its anchor.
use eqrcp.Base.{
  ℕ, ◌+◌, ◌*◌, String, Bool, false, not, ◌&&◌, ◌||◌, List, [], ◌∷◌, Option, none, some, ltb, ◌=ₛ◌,
  if◌then◌else◌,
}
use eqrcp.Base.Int.{ℤ, pos}
use eqrcp.Base.Clock.{Time, second, time_sub}

pub record ChatUsage : Type 0 where
  pub date : String
  pub used_seconds : ℤ
  pub used_transfers : ℤ
  pub used_receive_transfers : ℤ
  pub is_paid : Bool
  pub last_time : ℤ
  pub redeemed_at : String
  pub code_date : String
  pub clock_tampered : Bool
  pub last_seen : String
  pub clock_drift : Bool
  pub license_tier : String
  pub mac : String

abbrev pub no_usage : ChatUsage
no_usage = record {
  date = "";
  used_seconds = pos 0;
  used_transfers = pos 0;
  used_receive_transfers = pos 0;
  is_paid = false;
  last_time = pos 0;
  redeemed_at = "";
  code_date = "";
  clock_tampered = false;
  last_seen = "";
  clock_drift = false;
  license_tier = "";
  mac = "";
}

abbrev pub free_chat_daily_seconds : ℤ
free_chat_daily_seconds = pos 300

abbrev pub last_seen_tolerance : ℕ
last_seen_tolerance = 10 * 60 * second

abbrev pub clock_drift_threshold : ℕ
clock_drift_threshold = 60 * 60 * second

-- What the code calls of Go's libraries: HMAC-SHA256 in hexadecimal, the printing of numbers and
-- the concatenation of `fmt.Sprintf`, and the two layouts of package `time`.
pub record Host : Type 0 where
  pub hmac_hex : (key payload : String) → String
  pub show_int : ℤ → String
  pub concat : String → String → String
  pub format_date : Time → String
  pub format_rfc3339 : Time → String
  pub parse_rfc3339 : String → Option Time

abbrev default_usage_key : String
default_usage_key = "EQT_DEFAULT_USAGE_KEY"

abbrev show_bool : Bool → String
show_bool b = if b then "true" else "false"

module _ (h : Host) where
  -- The fields behind a version mark, a bar before each.
  payload : String → List String → String
  payload mark [] = mark
  payload mark (f ∷ fs) = payload (h.concat mark (h.concat "|" f)) fs

  abbrev usage_key : String → String
  usage_key machine_key =
      h.concat "EQT_USAGE_HMAC_v1:" (if machine_key =ₛ "" then default_usage_key else machine_key)

  unfoldable pub compute_usage_mac_v1 : ChatUsage → String → String
  unfolding payload
  compute_usage_mac_v1 u machine_key = h.hmac_hex (usage_key machine_key) (
      payload "V1" (
        u.date
        ∷ h.show_int u.used_seconds
        ∷ h.show_int u.used_transfers
        ∷ h.show_int u.used_receive_transfers
        ∷ show_bool u.is_paid
        ∷ show_bool u.clock_tampered
        ∷ []))

  unfoldable pub compute_usage_mac : ChatUsage → String → String
  unfolding payload
  compute_usage_mac u machine_key = h.hmac_hex (usage_key machine_key) (
      payload "V2" (
        u.date
        ∷ h.show_int u.used_seconds
        ∷ h.show_int u.used_transfers
        ∷ h.show_int u.used_receive_transfers
        ∷ show_bool u.is_paid
        ∷ show_bool u.clock_tampered
        ∷ u.last_seen
        ∷ []))

  abbrev signed_with : ChatUsage → String → Bool
  signed_with u key = u.mac =ₛ compute_usage_mac u key || u.mac =ₛ compute_usage_mac_v1 u key

  unfoldable pub mac_valid : ChatUsage → String → Bool
  mac_valid u machine_key =
      u.mac =ₛ ""
      || (signed_with u machine_key
          || ((not (machine_key =ₛ "") && signed_with u "")
              || (machine_key =ₛ "" && signed_with u default_usage_key)))

  unfoldable pub rollback_detected : ChatUsage → Time → Bool
  rollback_detected u ref_time =
      if u.last_seen =ₛ "" then false else elim (h.parse_rfc3339 u.last_seen) [
        | none ↦ false
        | some last_seen ↦ ltb (ref_time + last_seen_tolerance) last_seen
      ]

  abbrev year : ℤ
  year = pos (365 * 24 * 3600 * second)

  unfoldable pub last_seen_age : Time → String → ℤ
  last_seen_age ref_time last_seen =
      if last_seen =ₛ ""
      then year
      else elim (h.parse_rfc3339 last_seen) [ none ↦ year | some t ↦ time_sub ref_time t ]
