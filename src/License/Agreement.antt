-- ===== src/License/Agreement.antt =====
-- pkg/server/license.go: what the rest of the program sees of the license after a change of the paid status.
use eqrcp.Base.{
  ◌≡◌, refl, ap, ◌∙◌, inl, inr, String, Bool, true, false, ◌&&◌, Option, none, some, ◌∷◌, arith,
  ◌=ₛ◌, if◌then◌else◌, Bool-cases,
}
use eqrcp.Base.Clock.{Time}
use eqrcp.Quota.Usage.{ChatUsage, Host, rollback_detected}
use eqrcp.Quota.Load.{
  Moment, ChatLimiter, read_file, judge, judge_file, reload, save_usage_locked, load_usage_locked,
  check_license_validity,
}
use eqrcp.Chat.{TextLibrary, ChatSession}
use eqrcp.License.Memory.{
  App, get_paid_status, get_license_tier, get_clock_tampered_status, set_paid_details,
  set_paid_status, set_clock_tampered, announce, paid_caches, seen_by, view,
}

-- The usage file says this of the paid status.
abbrev pub FileSays : Option ChatUsage → Bool → Type 0
FileSays none paid = ⊥
FileSays (some u) paid = u.is_paid ≡ paid

-- The status that the program reports and that of the limiter in memory, with the tier.
abbrev pub Agrees : App → Bool → String → Type 0
Agrees s paid tier =
    (get_paid_status s ≡ paid)
    × (s.memory.is_paid ≡ paid)
    × (get_license_tier s ≡ (if paid then tier else ""))
    × (s.limiter.cached_usage.is_paid ≡ paid)
    × (s.limiter.has_cached ≡ true)

judge-is_paid :
    (t : Moment) (tampered old : Bool) (u : ChatUsage)
    → (judge t false tampered old u).usage.is_paid ≡ u.is_paid
unfolding judge
judge-is_paid t tampered old u = ground arith

judge_file-is_paid :
    (h : Host) (l : ChatLimiter) (t : Moment)
    → rollback_detected h (read_file h l t).usage t.net_time ≡ false
    → (judge_file h l t).usage.is_paid ≡ t.license.paid
unfolding judge_file check_license_validity
judge_file-is_paid h l t e = rw (e, judge_file) (judge-is_paid t _ _ _)

-- Unless the file is from a later time, the paid status of a loaded record is the license's.
load_usage-is_paid :
    (h : Host) (l : ChatLimiter) (t : Moment)
    → t.mock ≡ none
    → rollback_detected h (read_file h l t).usage t.net_time ≡ false
    → (load_usage_locked h l t).1.is_paid ≡ t.license.paid
unfolding load_usage_locked reload check_license_validity
load_usage-is_paid h l t no_mock e =
    rw (no_mock, load_usage_locked)
      (elim (Bool-cases (l.has_cached && l.cached_usage.date =ₛ h.format_date t.net_time)) [
        | inl cached ↦ rw (cached, load_usage_locked) refl
        | inr fresh ↦ rw (fresh, load_usage_locked) (judge_file-is_paid h l t e)
      ])

announce_same :
    (x : TextLibrary) (to_upper : String → String) (session : Option ChatSession) (paid : Bool)
    (tier code_date : String) (now : Time)
    → announce x to_upper session paid paid tier code_date now ≡ session
unfolding announce
announce_same x to_upper none paid tier code_date now = refl
announce_same x to_upper (some session) true tier code_date now = refl
announce_same x to_upper (some session) false tier code_date now = refl

module _ (h : Host) (x : TextLibrary) (to_upper : String → String) where
  -- After `SetPaidStatus`, the status that the program reports, the limiter in memory and its file, if
  -- it can be written, all have the new status; the certificate is not touched, a paid status
  -- takes the mark of a tampered clock away, and exactly one event tells of the change.
  pub set_paid_status-Agrees :
      (s : App) (paid : Bool) (redeemed_at code_date tier : String) (t : Moment)
      → t.write_ok ≡ true
      → let after = set_paid_status h x to_upper s paid redeemed_at code_date tier t in
        Agrees after paid tier
        × FileSays after.limiter.file paid
        × (after.file ≡ s.file)
        × (get_clock_tampered_status after ≡ (if paid then false else get_clock_tampered_status s))
        × (after.events ≡ (paid, tier) ∷ s.events)
  unfolding set_paid_status set_paid_details get_paid_status get_license_tier
      get_clock_tampered_status save_usage_locked
  set_paid_status-Agrees s true redeemed_at code_date tier t ok =
      ((refl, refl, refl, refl, refl), rw ok refl, refl, refl, refl)
  set_paid_status-Agrees s false redeemed_at code_date tier t ok =
      ((ground arith, refl, refl, refl, refl), rw ok refl, refl, refl, refl)

  details_announce_nothing :
      (s : App) (paid : Bool) (redeemed_at code_date tier : String) (t : Moment)
      → t.mock ≡ none
      → rollback_detected h (read_file h s.limiter t).usage t.net_time ≡ false
      → (view (paid_caches s.memory paid code_date tier)).paid ≡ paid
      → (set_paid_details h x to_upper s paid redeemed_at code_date tier t).0.active_session
        ≡ s.active_session
  unfolding set_paid_details read_file
  details_announce_nothing s paid redeemed_at code_date tier t no_mock e known =
      let at = seen_by (paid_caches s.memory paid code_date tier) t in
      let old : (load_usage_locked h s.limiter at).1.is_paid ≡ paid =
        load_usage-is_paid h s.limiter at no_mock e ∙ known in
      ap (λ was. announce x to_upper s.active_session was paid tier code_date t.now) old
      ∙ announce_same x to_upper s.active_session paid tier code_date t.now

  -- The message in the hosted chat that tells of a new status is never written, unless the usage file
  -- is from a later time or the test switch gives the usage: the record that the change is compared with has the new status already.
  pub set_paid_status-announces_nothing :
      (s : App) (paid : Bool) (redeemed_at code_date tier : String) (t : Moment)
      → t.mock ≡ none
      → rollback_detected h (read_file h s.limiter t).usage t.net_time ≡ false
      → (set_paid_status h x to_upper s paid redeemed_at code_date tier t).active_session
        ≡ s.active_session
  unfolding set_paid_status
  set_paid_status-announces_nothing s true redeemed_at code_date tier t no_mock e =
      details_announce_nothing _ true redeemed_at code_date tier t no_mock e refl
  set_paid_status-announces_nothing s false redeemed_at code_date tier t no_mock e =
      details_announce_nothing _ false redeemed_at code_date tier t no_mock e (ground arith)

  pub set_clock_tampered-file :
      (s : App) (tampered : Bool) (t : Moment)
      → (set_clock_tampered h x to_upper s tampered t).file ≡ s.file
  unfolding set_clock_tampered
  set_clock_tampered-file s tampered t = ground arith
