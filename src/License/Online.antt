-- ===== src/License/Online.antt =====
-- pkg/server/license.go: what the program does with the replies of the license server, in
-- `doOnlineLicenseSync`.
use eqrcp.Base.{
  ℕ, ◌*◌, String, Bool, true, false, not, ◌&&◌, ◌||◌, Option, none, some, ◌==◌, ◌=ₛ◌, if◌then◌else◌,
}
use eqrcp.Base.Int.{ℤ, pos, ltb_ℤ}
use eqrcp.Base.Clock.{Time, second, time_sub}
use eqrcp.Quota.Usage.{Host}
use eqrcp.Chat.{TextLibrary}
use eqrcp.License.{LicenseCertificate, Library}
use eqrcp.License.Signatures.{verify_license_signature, verify_sync_signature, verify_fingerprint}
use eqrcp.License.Memory.{App, set_paid_status}
use eqrcp.License.Local.{
  Occasion, get_local_license_info, get_authority_device_id, set_authority_device_id, reset_license,
}

-- What comes of a request: no answer, an answer whose body cannot be read, or a status with a body.
pub data Reply {ℓ} (A : Type ℓ) : Type ℓ where
  no_answer : Reply A
  unreadable : Reply A
  answer : (status : ℕ) (body : A) → Reply A

pub record VerifyApiResponse : Type 0 where
  pub status : String
  pub license_code : String
  pub tier : String
  pub uuid_hash : String
  pub cpu_hash : String
  pub disk_hash : String
  pub device_id : String
  pub max_devices : ℤ
  pub activated_devices : ℤ
  pub expires_at : String
  pub buyer_email : String
  pub certificate_signature : String
  pub current_time : String
  pub sync_signature : String
  pub is_dev : Bool

-- The errors of the sync, in the order of their checks.
pub data SyncError : Type 0 where
  no_license : SyncError
  invalid_license_signature : SyncError
  network_error : SyncError
  unread_response : SyncError
  revoked : SyncError
  server_status : ℕ → SyncError
  unparsed_response : SyncError
  status_not_ok : SyncError
  certificate_invalid : SyncError
  fingerprint_mismatch : SyncError
  sync_invalid : SyncError

unfoldable pub set_server_dev_authorized : App → Bool → App
set_server_dev_authorized s authorized = record s { server_dev_authorized = authorized }

module _ (lib : Library) where
  -- All signed fields of the answer, with the time of the device.
  unfoldable pub updated_certificate : VerifyApiResponse → Time → LicenseCertificate
  updated_certificate r now = record {
    license_code = r.license_code;
    tier = r.tier;
    uuid_hash = r.uuid_hash;
    cpu_hash = r.cpu_hash;
    disk_hash = r.disk_hash;
    device_id = r.device_id;
    expires_at = r.expires_at;
    max_devices = r.max_devices;
    activated_devices = r.activated_devices;
    buyer_email = r.buyer_email;
    signature = r.certificate_signature;
    last_online_sync_time = r.current_time;
    last_seen_local_time = lib.format_rfc3339 now;
    verify_signature = r.sync_signature;
  }

  -- The error of an updated certificate for the license of the second.
  unfoldable pub check_updated : Occasion → (updated c : LicenseCertificate) → Option SyncError
  check_updated o updated c =
      if not (updated.license_code =ₛ c.license_code) || not (verify_license_signature lib updated)
      then some certificate_invalid
      else if not (verify_fingerprint o.fingerprint updated)
      then some fingerprint_mismatch
      else if not (verify_sync_signature lib updated)
      then some sync_invalid
      else none

  -- The last sync is less than twelve hours ago.
  unfoldable pub recently_synced : LicenseCertificate → Time → Bool
  recently_synced c now =
      if c.last_online_sync_time =ₛ ""
      then false
      else elim (lib.parse_rfc3339 c.last_online_sync_time) [
        | none ↦ false
        | some last_sync ↦ ltb_ℤ (time_sub now last_sync) (pos (12 * 3600 * second))
      ]

  -- The updated certificate in the cache and in the file, with the rights and the id of the device.
  abbrev pub installed : Occasion → App → VerifyApiResponse → App
  installed o s r =
      let updated = updated_certificate r o.moment.now in
      let dev = set_server_dev_authorized s r.is_dev in
      let owned =
        if updated.device_id =ₛ "" then dev else set_authority_device_id dev updated.device_id in
      record owned {
        file = if o.file_ok then some updated else s.file;
        cached_license = some updated;
        has_cached_license = true;
      }

  module _ (h : Host) (x : TextLibrary) (to_upper : String → String) where
    -- The updated certificate in use.
    unfoldable pub adopt : Occasion → App → VerifyApiResponse → App
    adopt o s r =
        let updated = updated_certificate r o.moment.now in
        set_paid_status h x to_upper (installed o s r) true updated.last_online_sync_time
          updated.expires_at updated.tier o.moment

    abbrev pub adopt_checked :
        Occasion → App → VerifyApiResponse → Option SyncError → App × Option SyncError
    adopt_checked o s r none = (adopt o s r, none)
    adopt_checked o s r (some error) = (s, some error)

    unfoldable pub apply_body :
        Occasion → App → LicenseCertificate → Option VerifyApiResponse → App × Option SyncError
    apply_body o s c none = (s, some unparsed_response)
    apply_body o s c (some r) =
        if not (r.status =ₛ "OK")
        then (s, some status_not_ok)
        else adopt_checked o s r (check_updated o (updated_certificate r o.moment.now) c)

    -- What the answer of the server does for the certificate that was sent.
    unfoldable pub apply_reply :
        Occasion
        → App
        → LicenseCertificate
        → Reply (Option VerifyApiResponse)
        → App × Option SyncError
    apply_reply o s c no_answer = (s, some network_error)
    apply_reply o s c unreadable = (s, some unread_response)
    apply_reply o s c (answer status body) =
        if status == 403 || status == 404
        then (reset_license h x to_upper o s, some revoked)
        else if not (status == 200)
        then (s, some (server_status status))
        else apply_body o s c body

    -- The sync for the certificate of the device.
    unfoldable pub sync_found :
        (force : Bool)
        → Occasion
        → App
        → Reply (Option VerifyApiResponse)
        → Option LicenseCertificate
        → App × Option SyncError
    sync_found force o s reply none = (s, some no_license)
    sync_found force o s reply (some c) =
        if not (verify_license_signature lib c)
        then (s, some invalid_license_signature)
        else if not force && recently_synced c o.moment.now
        then (s, none)
        else apply_reply o (get_authority_device_id o s).0 c reply

    -- `in_flight`: another sync is in progress.
    unfoldable pub do_online_license_sync :
        (force in_flight : Bool)
        → Occasion
        → App
        → Reply (Option VerifyApiResponse)
        → App × Option SyncError
    do_online_license_sync force in_flight o s reply =
        if in_flight
        then (s, none)
        else (let (s', found) = get_local_license_info s in sync_found force o s' reply found)
