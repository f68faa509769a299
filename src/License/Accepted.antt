-- ===== src/License/Accepted.antt =====
-- pkg/server/license.go: which certificates `VerifyLocalLicense` accepts, and what it leaves behind.
use eqrcp.Base.{
  ◌+◌, ◌≤◌, ◌≡◌, refl, sym, ap, subst, ◌⊎◌, ◌↔◌, String, Bool, true, false, not, ◌&&◌, any, List,
  [], ◌∷◌, ◌∙◌, Option, none, some, arith, ◌=ₛ◌, eq_iff,
}
use eqrcp.Base.Clock.{Time}
use eqrcp.Quota.Usage.{Host}
use eqrcp.Quota.Load.{Moment}
use eqrcp.Chat.{TextLibrary}
use eqrcp.License.{LicenseCertificate, Library}
use eqrcp.License.Signatures.{verify_license_signature, verify_sync_signature, verify_fingerprint}
use eqrcp.License.Memory.{
  App, get_paid_status, set_clock_tampered, set_paid_status, set_paid_details,
}
use eqrcp.License.Local.{
  Occasion, refused, rolled_back, accepted, sync_lease, clock_variance, expired, lease_over,
  set_back, check_local, conclude, verify_read, Verdict, verify_local_license, touch, grant,
  set_unpaid,
}
use eqrcp.License.Agreement.{FileSays, set_paid_status-Agrees}

module _ (lib : Library) where
  -- The text is a time, and it is this moment or a later one when the span is added to it.
  abbrev pub ReadsUpTo : String → (span now : Time) → Type 0
  ReadsUpTo text span now = (t : Time) × (lib.parse_rfc3339 text ≡ some t) × (now ≤ t + span)

  abbrev pub Unexpired : LicenseCertificate → Time → Type 0
  Unexpired c now = (c.expires_at ≡ "LIFETIME") ⊎ ReadsUpTo c.expires_at 0 now

  -- No time is stamped that is later than this moment by more than the variance.
  abbrev pub NotSetBack : LicenseCertificate → Time → Type 0
  NotSetBack c now =
      (c.last_seen_local_time ≡ "")
      ⊎ (lib.parse_rfc3339 c.last_seen_local_time ≡ none)
      ⊎ ((seen : Time) × (lib.parse_rfc3339 c.last_seen_local_time ≡ some seen)
          × (seen ≤ now + clock_variance))

  -- The signed certificate is for this device and not over, and outside of tests its last sync is signed
  -- and within the lease and the clock was not set back.
  abbrev pub Acceptable : Occasion → LicenseCertificate → Type 0
  Acceptable o c =
      (verify_license_signature lib c ≡ true)
      × Unexpired c o.moment.now
      × (verify_fingerprint o.fingerprint c ≡ true)
      × ((o.moment.testing ≡ true)
          ⊎ ((verify_sync_signature lib c ≡ true)
              × ReadsUpTo c.last_online_sync_time sync_lease o.moment.now
              × NotSetBack c o.moment.now))

  expired-Unexpired :
      (c : LicenseCertificate) (now : Time) → (expired lib c now ≡ false) ↔ Unexpired c now
  unfolding expired
  expired-Unexpired c now = ground (arith, eq_iff c.expires_at "LIFETIME")

  lease_over-ReadsUpTo :
      (c : LicenseCertificate) (now : Time)
      → (lease_over lib c now ≡ false) ↔ ReadsUpTo c.last_online_sync_time sync_lease now
  unfolding lease_over
  lease_over-ReadsUpTo c now = ground arith

  set_back-NotSetBack :
      (c : LicenseCertificate) (now : Time) → (set_back lib c now ≡ false) ↔ NotSetBack c now
  unfolding set_back
  set_back-NotSetBack c now = ground (arith, eq_iff c.last_seen_local_time "")

  signed_sync :
      (c : LicenseCertificate)
      → verify_sync_signature lib c ≡ true
      → c.verify_signature =ₛ "" ≡ false
  unfolding verify_sync_signature
  signed_sync c h = ground arith

  check_local-Acceptable :
      (o : Occasion) (c : LicenseCertificate) → (check_local lib o c ≡ accepted) ↔ Acceptable o c
  unfolding check_local
  check_local-Acceptable o c = ground (
    arith,
    expired-Unexpired c o.moment.now,
    lease_over-ReadsUpTo c o.moment.now,
    set_back-NotSetBack c o.moment.now,
    signed_sync c,
  )

-- The program's status, the limiter's and that in the usage file are this one.
abbrev pub Settled : App → Bool → Type 0
Settled s paid =
    (get_paid_status s ≡ paid)
    × (s.limiter.cached_usage.is_paid ≡ paid)
    × FileSays s.limiter.file paid

module _ (h : Host) (x : TextLibrary) (to_upper : String → String) where
  pub set_paid_status-Settled :
      (s : App) (paid : Bool) (redeemed_at code_date tier : String) (t : Moment)
      → t.write_ok ≡ true
      → Settled (set_paid_status h x to_upper s paid redeemed_at code_date tier t) paid
  set_paid_status-Settled s paid redeemed_at code_date tier t ok =
      let a = set_paid_status-Agrees h x to_upper s paid redeemed_at code_date tier t ok in
      (a.0.0, a.0.3, a.1)

  pub set_unpaid-Settled :
      (s : App) (t : Moment) → t.write_ok ≡ true → Settled (set_unpaid h x to_upper s t) false
  set_unpaid-Settled s t ok = set_paid_status-Settled s false "" "" "" t ok

  grant-Settled :
      (s : App) (c : LicenseCertificate) (t : Moment)
      → t.write_ok ≡ true
      → Settled (grant h x to_upper s c t) true
  grant-Settled s c t ok =
      set_paid_status-Settled (set_clock_tampered h x to_upper s false t) true
        c.last_online_sync_time c.expires_at c.tier t ok

  -- A paid status is that of a trusted clock; else the status in memory is unpaid whatever the clock is.
  abbrev Known : App → Bool → Type 0
  Known s paid = (s.memory.is_paid ≡ paid) × (get_paid_status s ≡ paid)

  set_paid_status-Known :
      (s : App) (paid : Bool) (redeemed_at code_date tier : String) (t : Moment)
      → Known (set_paid_status h x to_upper s paid redeemed_at code_date tier t) paid
  unfolding set_paid_status set_paid_details get_paid_status
  set_paid_status-Known s true redeemed_at code_date tier t = (refl, refl)
  set_paid_status-Known s false redeemed_at code_date tier t = (refl, ground arith)

  set_clock_tampered-Known :
      (s : App) (tampered paid : Bool) (t : Moment)
      → Known s paid
      → Known (set_clock_tampered h x to_upper s tampered t) (paid && not tampered)
  unfolding set_clock_tampered get_paid_status
  set_clock_tampered-Known s tampered paid t known = ground arith

  -- Calls of `SetClockTampered` that run one after another, each at its moment.
  abbrev pub run_started : App → List (Bool × Moment) → App
  run_started s [] = s
  run_started s ((tampered, t) ∷ calls) =
      run_started (set_clock_tampered h x to_upper s tampered t) calls

  run_started-status :
      (s : App) (paid : Bool) (calls : List (Bool × Moment))
      → Known s paid
      → get_paid_status (run_started s calls) ≡ (paid && not (any (λ call. call.0) calls))
  run_started-status s paid [] known = known.1 ∙ ground arith
  run_started-status s paid ((tampered, t) ∷ calls) known =
      run_started-status (set_clock_tampered h x to_upper s tampered t) (paid && not tampered) calls
        (set_clock_tampered-Known s tampered paid t known)
      ∙ ground arith

module _ (lib : Library) (h : Host) (x : TextLibrary) (to_upper : String → String) where
  conclude-accepted :
      (o : Occasion) (s : App) (c : LicenseCertificate) (v : Verdict)
      → ((conclude lib h x to_upper o s c v).1 ≡ true) ↔ (v ≡ accepted)
  unfolding conclude
  conclude-accepted o s c refused = ground arith
  conclude-accepted o s c rolled_back = ground arith
  conclude-accepted o s c accepted = ground arith

  conclude-Settled :
      (o : Occasion) (s : App) (c : LicenseCertificate) (v : Verdict)
      → o.moment.write_ok ≡ true
      → let r = conclude lib h x to_upper o s c v in Settled r.0 r.1
  unfolding conclude
  conclude-Settled o s c refused ok = set_unpaid-Settled h x to_upper _ o.moment ok
  conclude-Settled o s c rolled_back ok = set_unpaid-Settled h x to_upper _ o.moment ok
  conclude-Settled o s c accepted ok =
      let (s', c') = touch lib o s c in grant-Settled h x to_upper s' c' o.moment ok

  conclude-Known :
      (o : Occasion) (s : App) (c : LicenseCertificate) (v : Verdict)
      → let r = conclude lib h x to_upper o s c v in Known h x to_upper r.0 r.1
  unfolding conclude
  conclude-Known o s c refused = set_paid_status-Known h x to_upper _ false "" "" "" o.moment
  conclude-Known o s c rolled_back = set_paid_status-Known h x to_upper _ false "" "" "" o.moment
  conclude-Known o s c accepted = set_paid_status-Known h x to_upper _ true _ _ _ o.moment

  verify_read-Known :
      (o : Occasion) (s : App) (f : Option LicenseCertificate)
      → let r = verify_read lib h x to_upper o s f in Known h x to_upper r.0 r.1
  unfolding verify_read
  verify_read-Known o s none = set_paid_status-Known h x to_upper s false "" "" "" o.moment
  verify_read-Known o s (some c) = conclude-Known o s c (check_local lib o c)

  verify_read-Acceptable :
      (o : Occasion) (s : App) (f : Option LicenseCertificate)
      → ((verify_read lib h x to_upper o s f).1 ≡ true)
        ↔ ((c : LicenseCertificate) × (f ≡ some c) × Acceptable lib o c)
  unfolding verify_read
  verify_read-Acceptable o s none = ground arith
  verify_read-Acceptable o s (some c) =
      let concluded = conclude-accepted o s c (check_local lib o c) in
      let checked = check_local-Acceptable lib o c in
      (
        λ e. (c, refl, checked.0 (concluded.0 e)),
        λ (d, e, ok). concluded.1 (
            checked.1
              (subst (Acceptable lib o) (sym (ap (λ f. elim f [ none ↦ c | some k ↦ k ]) e)) ok)),
      )

  verify_read-Settled :
      (o : Occasion) (s : App) (f : Option LicenseCertificate)
      → o.moment.write_ok ≡ true
      → let r = verify_read lib h x to_upper o s f in Settled r.0 r.1
  unfolding verify_read
  verify_read-Settled o s none ok = set_unpaid-Settled h x to_upper s o.moment ok
  verify_read-Settled o s (some c) ok = conclude-Settled o s c (check_local lib o c) ok

  -- `VerifyLocalLicense` succeeds exactly on a readable certificate that is acceptable.
  pub verify_local_license-Acceptable :
      (o : Occasion) (s : App)
      → ((verify_local_license lib h x to_upper o s).1 ≡ true)
        ↔ ((c : LicenseCertificate) × (s.file ≡ some c) × Acceptable lib o c)
  unfolding verify_local_license
  verify_local_license-Acceptable o s = verify_read-Acceptable o s s.file

  -- Whatever `VerifyLocalLicense` finds, the status when it returns is its result, in memory, in the limiter and
  -- in the usage file, if this file can be written. The calls of `SetClockTampered` that the limiter
  -- started meanwhile run later, at any moments and with any others: after them the program reports the
  -- result still, but no paid status once a call was for a tampered clock.
  pub verify_local_license-Settled :
      (o : Occasion) (s : App) (calls : List (Bool × Moment))
      → o.moment.write_ok ≡ true
      → let r = verify_local_license lib h x to_upper o s in
        Settled r.0 r.1
        × (get_paid_status (run_started h x to_upper r.0 calls)
            ≡ (r.1 && not (any (λ call. call.0) calls)))
  unfolding verify_local_license
  verify_local_license-Settled o s calls ok =
      let r = verify_local_license lib h x to_upper o s in
      let settled = verify_read-Settled o s s.file ok in
      (settled, run_started-status h x to_upper r.0 r.1 calls (verify_read-Known o s s.file))
