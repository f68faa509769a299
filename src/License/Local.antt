-- ===== src/License/Local.antt =====
-- pkg/server/license.go: the certificate's file and its cache, `VerifyLocalLicense`, `ResetLicense` and
-- `SaveRestoredLicenseCertificate`, with the device's id of hardware.go.
use eqrcp.Base.{
  ◌+◌, ◌*◌, String, Bool, true, false, not, ◌||◌, Option, none, some, ltb, ◌=ₛ◌, if◌then◌else◌,
}
use eqrcp.Base.Int.{pos, ltb_ℤ}
use eqrcp.Base.Clock.{Time, second, time_sub}
use eqrcp.Quota.Usage.{Host}
use eqrcp.Quota.Load.{Moment}
use eqrcp.Chat.{TextLibrary}
use eqrcp.License.{LicenseCertificate, Library, Fingerprint}
use eqrcp.License.Signatures.{verify_license_signature, verify_sync_signature, verify_fingerprint}
use eqrcp.License.Memory.{App, Authority, set_paid_status, set_clock_tampered}

-- What a call finds: the moment for the limiter, the hashes of the device, whether the certificate's
-- file can be written and removed, what a second read of this file gives, and what `readCachedDeviceID` gives.
pub record Occasion : Type 0 where
  pub moment : Moment
  pub fingerprint : Fingerprint
  pub file_ok : Bool
  pub read_again : Option LicenseCertificate
  pub cached_device_id : String

pub data Verdict : Type 0 where
  refused : Verdict
  rolled_back : Verdict
  accepted : Verdict

abbrev pub sync_lease : Time
sync_lease = 7 * 24 * 3600 * second

abbrev pub clock_variance : Time
clock_variance = 10 * 60 * second

module _ (lib : Library) where
  open lib use {parse_rfc3339, format_rfc3339}

  unfoldable pub expired : LicenseCertificate → Time → Bool
  expired c now =
      if c.expires_at =ₛ "LIFETIME"
      then false
      else elim (parse_rfc3339 c.expires_at) [ none ↦ true | some expiry ↦ ltb expiry now ]

  -- Whether the time of the last sync cannot be read or is longer ago than the lease.
  unfoldable pub lease_over : LicenseCertificate → Time → Bool
  lease_over c now = elim (parse_rfc3339 c.last_online_sync_time) [
    | none ↦ true
    | some last_sync ↦ ltb (last_sync + sync_lease) now
  ]

  unfoldable pub set_back : LicenseCertificate → Time → Bool
  set_back c now =
      if c.last_seen_local_time =ₛ "" then false else elim (parse_rfc3339 c.last_seen_local_time) [
        | none ↦ false
        | some last_seen ↦ ltb (now + clock_variance) last_seen
      ]

  unfoldable pub check_local : Occasion → LicenseCertificate → Verdict
  check_local o c =
      let now = o.moment.now in
      if not (verify_license_signature lib c)
      then refused
      else if expired c now
      then refused
      else if not (verify_fingerprint o.fingerprint c)
      then refused
      else if o.moment.testing
      then accepted
      else if c.verify_signature =ₛ ""
      then refused
      else if not (verify_sync_signature lib c)
      then refused
      else if lease_over c now
      then refused
      else if set_back c now
      then rolled_back
      else accepted

  -- Whether the certificate was not stamped within the last minute.
  unfoldable pub stamp_due : LicenseCertificate → Time → Bool
  stamp_due c now =
      if c.last_seen_local_time =ₛ "" then true else elim (parse_rfc3339 c.last_seen_local_time) [
        | none ↦ true
        | some last_seen ↦ not (ltb_ℤ (time_sub now last_seen) (pos (60 * second)))
      ]

  -- The certificate that the file holds by now, if it is one of the same license.
  unfoldable pub merge : LicenseCertificate → Option LicenseCertificate → LicenseCertificate
  merge c none = c
  merge c (some disk) = if disk.license_code =ₛ c.license_code then disk else c

  abbrev pub seen_at : LicenseCertificate → Time → LicenseCertificate
  seen_at c now = record c { last_seen_local_time = format_rfc3339 now }

  unfoldable pub touch : Occasion → App → LicenseCertificate → App × LicenseCertificate
  touch o s c =
      let written = seen_at (merge c o.read_again) o.moment.now in
      if stamp_due c o.moment.now
      then (
        record s {
          file = if o.file_ok then some written else o.read_again;
          cached_license = some written;
          has_cached_license = true;
        },
        written,
      )
      else (s, c)

unfoldable pub get_local_license_info : App → App × Option LicenseCertificate
get_local_license_info s =
    if s.has_cached_license
    then (s, s.cached_license)
    else (record s { cached_license = s.file; has_cached_license = true }, s.file)

-- hardware.go: the id of the device in the certificate, if it has one, or the id from the server.
unfoldable pub device_id_from : Occasion → App → Option LicenseCertificate → App × String
device_id_from o s found =
    let known = s.authority.authority_device_id in
    let checked = s.authority.authority_device_id_checked in
    let own : String = elim found [ none ↦ "" | some c ↦ c.device_id ] in
    let read = if checked || o.cached_device_id =ₛ "" then known else o.cached_device_id in
    let authority : Authority = record {
      authority_device_id = read;
      authority_device_id_checked = true;
    } in
    if own =ₛ ""
    then (record s { authority = authority }, if checked then known else o.cached_device_id)
    else (s, own)

unfoldable pub get_authority_device_id : Occasion → App → App × String
get_authority_device_id o s =
    let (s', found) = get_local_license_info s in device_id_from o s' found

-- Without the file that keeps the id.
unfoldable pub set_authority_device_id : App → (id : String) → App
set_authority_device_id s id = record s {
  authority = record { authority_device_id = id; authority_device_id_checked = true };
}

-- The certificate in the file and in the cache, if the file can be written.
unfoldable pub store : App → LicenseCertificate → App
store s c = record s { file = some c; cached_license = some c; has_cached_license = true }

-- Neither the file nor the cache has a certificate, if the file can be removed.
abbrev pub removed : Occasion → App → App
removed o s = record s {
  cached_license = none;
  has_cached_license = true;
  file = if o.file_ok then none else s.file;
}

module _ (h : Host) (x : TextLibrary) (to_upper : String → String) where
  abbrev pub set_unpaid : App → Moment → App
  set_unpaid s t = set_paid_status h x to_upper s false "" "" "" t

  -- The last steps of each way to a license: the clock is trusted and the status is that of the
  -- certificate.
  abbrev pub grant : App → LicenseCertificate → Moment → App
  grant s c t =
      set_paid_status h x to_upper (set_clock_tampered h x to_upper s false t) true
        c.last_online_sync_time c.expires_at c.tier t

  -- Without the request to the server that gives the device's place free.
  unfoldable pub reset_license : Occasion → App → App
  reset_license o s = set_unpaid (removed o s) o.moment

module _ (lib : Library) (h : Host) (x : TextLibrary) (to_upper : String → String) where
  unfoldable pub conclude : Occasion → App → LicenseCertificate → Verdict → App × Bool
  conclude o s c refused = (set_unpaid h x to_upper s o.moment, false)
  conclude o s c rolled_back =
      let t = o.moment in
      (set_unpaid h x to_upper (set_clock_tampered h x to_upper s true t) t, false)
  conclude o s c accepted =
      let (s', c') = touch lib o s c in (grant h x to_upper s' c' o.moment, true)

  unfoldable pub verify_read : Occasion → App → Option LicenseCertificate → App × Bool
  verify_read o s none = (set_unpaid h x to_upper s o.moment, false)
  verify_read o s (some c) = conclude o s c (check_local lib o c)

  unfoldable pub verify_local_license : Occasion → App → App × Bool
  verify_local_license o s = verify_read o s s.file

  unfoldable pub save_restored_license_certificate :
      Occasion → App → LicenseCertificate → App × Bool
  save_restored_license_certificate o s c =
      let (s', id) = get_authority_device_id o s in
      let owned = if id =ₛ "" then c else record c { device_id = id } in
      let seen = seen_at lib owned o.moment.now in
      if o.file_ok then (grant h x to_upper (store s' seen) seen o.moment, true) else (s', false)
