-- ===== src/License/Activation.antt =====
-- pkg/server/license.go: `activateLicenseOnlineInternal`, from the reply of the license server on.
use eqrcp.Base.{ℕ, ◌+◌, String, Bool, not, ◌&&◌, leb, ◌==◌, ◌=ₛ◌, if◌then◌else◌}
use eqrcp.Quota.Usage.{Host}
use eqrcp.Chat.{TextLibrary}
use eqrcp.License.{LicenseCertificate, Library, Fingerprint}
use eqrcp.License.Signatures.{verify_license_signature, verify_sync_signature, verify_fingerprint}
use eqrcp.License.Memory.{App}
use eqrcp.License.Local.{Occasion, seen_at, get_authority_device_id, grant, store}
use eqrcp.License.Online.{Reply, no_answer, unreadable, answer}

-- The body of an answer to an activation: an address must be proved first, or a certificate, or neither.
pub data ActivationBody : Type 0 where
  challenge : (license_code message : String) → ActivationBody
  certificate : LicenseCertificate → ActivationBody
  no_certificate : ActivationBody

pub data Activation : Type 0 where
  failed : Activation
  need_email : (license_code message : String) → Activation
  activated : (license_code : String) → Activation

abbrev known : String → ℕ
known hash = if hash =ₛ "" then 0 else 1

-- Two hashes of the device can be read.
unfoldable pub identified : Fingerprint → Bool
identified f = leb 2 (known f.uuid + known f.cpu + known f.disk)

module _ (lib : Library) where
  -- The checks of a certificate from an activation.
  unfoldable pub check_activated : Occasion → LicenseCertificate → Bool
  check_activated o c =
      verify_license_signature lib c
      && (verify_fingerprint o.fingerprint c
          && not (not (c.verify_signature =ₛ "") && not (verify_sync_signature lib c)))

  module _ (h : Host) (x : TextLibrary) (to_upper : String → String) where
    -- What an answer to an activation does.
    unfoldable pub apply_activation : Occasion → App → ActivationBody → App × Activation
    apply_activation o s (challenge code message) = (s, need_email code message)
    apply_activation o s no_certificate = (s, failed)
    apply_activation o s (certificate c) =
        let seen = seen_at lib c o.moment.now in
        if check_activated o c && o.file_ok
        then (grant h x to_upper (store s seen) seen o.moment, activated c.license_code)
        else (s, failed)

    unfoldable pub apply_activation_reply : Occasion → App → Reply ActivationBody → App × Activation
    apply_activation_reply o s no_answer = (s, failed)
    apply_activation_reply o s unreadable = (s, failed)
    apply_activation_reply o s (answer status body) =
        if status == 200 then apply_activation o s body else (s, failed)

    unfoldable pub activate_license_online_internal :
        Occasion → App → Reply ActivationBody → App × Activation
    activate_license_online_internal o s reply =
        if not (identified o.fingerprint)
        then (s, failed)
        else apply_activation_reply o (get_authority_device_id o s).0 reply
