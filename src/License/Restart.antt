-- ===== src/License/Restart.antt =====
-- pkg/server/license.go: the certificate of an activation or a sync after a restart.
use eqrcp.Base.{
  ℕ, ◌+◌, ◌*◌, ◌/◌, ◌≤◌, ◌≡◌, ◌≢◌, refl, sym, ap, ◌∙◌, inl, inr, String, true, false, ◌&&◌, Option,
  none, some, if◌then◌else◌, arith, Bool-cases, eq_iff, ◌==◌,
}
use eqrcp.Base.Clock.{Time, second}
use eqrcp.Quota.Usage.{Host}
use eqrcp.Quota.Load.{Moment}
use eqrcp.Chat.{TextLibrary}
use eqrcp.License.{LicenseCertificate, Library}
use eqrcp.License.Signatures.{
  verify_license_signature, verify_sync_signature, verify_fingerprint, license_payload_v1,
  license_payload_v2, sync_payload_v1, sync_payload_v2,
}
use eqrcp.License.Memory.{App, set_paid_status, set_paid_details}
use eqrcp.License.Local.{
  Occasion, get_authority_device_id, clock_variance, sync_lease, seen_at, verify_local_license,
  grant, store,
}
use eqrcp.License.Online.{
  answer, Reply, VerifyApiResponse, updated_certificate, do_online_license_sync,
}
use eqrcp.License.Activation.{
  certificate, activated, identified, check_activated, apply_activation, apply_activation_reply,
  activate_license_online_internal,
}
use eqrcp.License.Agreement.{set_clock_tampered-file}
use eqrcp.License.Replies.{Verified}
use eqrcp.License.Synced.{forced-Renewed}
use eqrcp.License.Accepted.{ReadsUpTo, Unexpired, Acceptable, verify_local_license-Acceptable}

module _ (lib : Library) where
  -- RFC 3339 is written without the fraction of a second, and read back so.
  abbrev pub ReadsWholeSeconds : Time → Type 0
  ReadsWholeSeconds now = lib.parse_rfc3339 (lib.format_rfc3339 now) ≡ some (now / second * second)

  -- The stamp of the last use is no part of what is signed.
  seen_at-signed :
      (c : LicenseCertificate) (now : Time)
      → (verify_license_signature lib (seen_at lib c now) ≡ verify_license_signature lib c)
        × (verify_sync_signature lib (seen_at lib c now) ≡ verify_sync_signature lib c)
  unfolding verify_license_signature verify_sync_signature license_payload_v1 license_payload_v2
      sync_payload_v1 sync_payload_v2
  seen_at-signed c now = (refl, refl)

  check_activated-signed :
      (o : Occasion) (c : LicenseCertificate)
      → check_activated lib o c ≡ true
      → c.verify_signature ≢ ""
      → (verify_license_signature lib c ≡ true)
        × (verify_fingerprint o.fingerprint c ≡ true)
        × (verify_sync_signature lib c ≡ true)
  unfolding check_activated
  check_activated-signed o c ok signed = ground (arith, eq_iff c.verify_signature "")

  seen_at-Acceptable :
      (o later : Occasion) (c : LicenseCertificate)
      → ReadsWholeSeconds o.moment.now
      → check_activated lib o c ≡ true
      → c.verify_signature ≢ ""
      → later.fingerprint ≡ o.fingerprint
      → Unexpired lib c later.moment.now
      → ReadsUpTo lib c.last_online_sync_time sync_lease later.moment.now
      → o.moment.now ≤ later.moment.now + clock_variance
      → Acceptable lib later (seen_at lib c o.moment.now)
  unfolding verify_fingerprint
  seen_at-Acceptable o later c law ok signed same unexpired leased clock =
      let (genuine, ours, synced) = check_activated-signed o c ok signed in
      let (kept, kept_sync) = seen_at-signed c o.moment.now in
      (
        kept ∙ genuine,
        unexpired,
        ap (λ f. verify_fingerprint f c) same ∙ ours,
        inr (
          kept_sync ∙ synced,
          leased,
          inr (inr (o.moment.now / second * second, law, omega arith)),
        ),
      )

  module _ (h : Host) (x : TextLibrary) (to_upper : String → String) where
    grant-file :
        (s : App) (c : LicenseCertificate) (t : Moment) → (grant h x to_upper s c t).file ≡ s.file
    unfolding set_paid_status set_paid_details
    grant-file s c t = set_clock_tampered-file h x to_upper s false t

    apply_activation-stored :
        (o : Occasion) (s : App) (c : LicenseCertificate)
        → (apply_activation lib h x to_upper o s (certificate c)).1 ≡ activated c.license_code
        → (check_activated lib o c ≡ true)
          × ((apply_activation lib h x to_upper o s (certificate c)).0.file
              ≡ some (seen_at lib c o.moment.now))
    unfolding apply_activation store
    apply_activation-stored o s c done = elim (Bool-cases (check_activated lib o c && o.file_ok)) [
      | inl ok ↦ (
        ground arith,
        rw (ok, apply_activation)
            (grant-file (store s (seen_at lib c o.moment.now)) (seen_at lib c o.moment.now)
              o.moment),
      )
      | inr bad ↦ ground (arith, done)
    ]

    activate-stored :
        (o : Occasion) (s : App) (status : ℕ) (c : LicenseCertificate)
        → (activate_license_online_internal lib h x to_upper o s (answer status (certificate c))).1
          ≡ activated c.license_code
        → (check_activated lib o c ≡ true)
          × ((activate_license_online_internal lib h x to_upper o s
                (answer status (certificate c))).0.file
              ≡ some (seen_at lib c o.moment.now))
    unfolding activate_license_online_internal apply_activation_reply
    activate-stored o s status c done = elim (Bool-cases (identified o.fingerprint)) [
      | inl enough ↦ elim (Bool-cases (status == 200)) [
        | inl fine ↦
            let s' = (get_authority_device_id o s).0 in
            let same : activate_license_online_internal lib h x to_upper o s
                  (answer status (certificate c))
                ≡ apply_activation lib h x to_upper o s' (certificate c) =
              ground arith in
            let (ok, stored) = apply_activation-stored o s' c (ap (λ r. r.1) (sym same) ∙ done) in
            (ok, ap (λ r. r.0.file) same ∙ stored)
        | inr other ↦ ground (arith, done)
      ]
      | inr few ↦ ground (arith, done)
    ]

    -- A certificate with a signature of its sync that an activation accepted is accepted when the program
    -- starts again on the same device, while it is not over, its last sync is within the lease,
    -- and the clock is not set back by more than the variance. The text of the activation's time
    -- is read back as this time in whole seconds.
    pub activation-restarts :
        (o later : Occasion) (s restarted : App) (status : ℕ) (c : LicenseCertificate)
        → ReadsWholeSeconds o.moment.now
        → (activate_license_online_internal lib h x to_upper o s (answer status (certificate c))).1
          ≡ activated c.license_code
        → restarted.file
          ≡ (activate_license_online_internal lib h x to_upper o s
              (answer status (certificate c))).0.file
        → c.verify_signature ≢ ""
        → later.fingerprint ≡ o.fingerprint
        → Unexpired lib c later.moment.now
        → ReadsUpTo lib c.last_online_sync_time sync_lease later.moment.now
        → o.moment.now ≤ later.moment.now + clock_variance
        → (verify_local_license lib h x to_upper later restarted).1 ≡ true
    activation-restarts o later s restarted status c law done same_file signed same unexpired leased
          clock =
        let (ok, stored) = activate-stored o s status c done in
        (verify_local_license-Acceptable lib h x to_upper later restarted).1 (
          seen_at lib c o.moment.now,
          same_file ∙ stored,
          seen_at-Acceptable o later c law ok signed same unexpired leased clock,
        )

    renewed-Acceptable :
        (o later : Occasion) (c c' : LicenseCertificate) (r : VerifyApiResponse)
        → ReadsWholeSeconds o.moment.now
        → Verified lib o c r
        → updated_certificate lib r o.moment.now ≡ c'
        → later.fingerprint ≡ o.fingerprint
        → Unexpired lib c' later.moment.now
        → ReadsUpTo lib c'.last_online_sync_time sync_lease later.moment.now
        → o.moment.now ≤ later.moment.now + clock_variance
        → Acceptable lib later c'
    unfolding updated_certificate verify_fingerprint
    renewed-Acceptable o later c c' r law (fine, code, genuine, ours, synced) same_cert same
          unexpired leased clock =
        let stamped = ap (λ (d : LicenseCertificate). d.last_seen_local_time) same_cert in
        (
          ap (verify_license_signature lib) (sym same_cert) ∙ genuine,
          unexpired,
          ap (λ f. verify_fingerprint f c') same
              ∙ (ap (verify_fingerprint o.fingerprint) (sym same_cert) ∙ ours),
          inr (
            ap (verify_sync_signature lib) (sym same_cert) ∙ synced,
            leased,
            inr (
                inr (
                  o.moment.now / second * second,
                  ap lib.parse_rfc3339 (sym stamped) ∙ law,
                  omega arith,
                )),
          ),
        )

    -- Whatever the server answers to a forced sync, with no other in progress: if the sync ends without an
    -- error, the certificate that the file then holds is accepted when the program starts again on the
    -- same device, while it is not over, its last sync is within the lease, and the clock is not set back
    -- by more than the variance. The usage file and the certificate's file must be ones that can be
    -- written, and the text of the sync's time is read back as this time in whole seconds.
    pub sync-restarts :
        (o later : Occasion) (s restarted : App) (reply : Reply (Option VerifyApiResponse))
        (c : LicenseCertificate)
        → o.moment.write_ok ≡ true
        → o.file_ok ≡ true
        → ReadsWholeSeconds o.moment.now
        → (do_online_license_sync lib h x to_upper true false o s reply).1 ≡ none
        → (do_online_license_sync lib h x to_upper true false o s reply).0.file ≡ some c
        → restarted.file ≡ some c
        → later.fingerprint ≡ o.fingerprint
        → Unexpired lib c later.moment.now
        → ReadsUpTo lib c.last_online_sync_time sync_lease later.moment.now
        → o.moment.now ≤ later.moment.now + clock_variance
        → (verify_local_license lib h x to_upper later restarted).1 ≡ true
    sync-restarts o later s restarted reply c ok writable law fine saved there same unexpired leased
          clock =
        let (old, (done, (r, is_reply, verified, (cached, known, file, dev)), settled)) =
          forced-Renewed lib h x to_upper o s reply ok fine in
        let updated = updated_certificate lib r o.moment.now in
        let written : some updated ≡ some c =
          sym (file ∙ ap (λ b. if b then some updated else s.file) writable) ∙ saved in
        let is_c : updated ≡ c = ap (λ f. elim f [ none ↦ updated | some d ↦ d ]) written in
        (verify_local_license-Acceptable lib h x to_upper later restarted).1 (
          c,
          there,
          renewed-Acceptable o later old c r law verified is_c same unexpired leased clock,
        )
