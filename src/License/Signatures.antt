-- ===== src/License/Signatures.antt =====
-- pkg/server/license.go: `VerifyLicenseSignature`, `VerifySyncSignature`, `VerifySyncUsageSignature` and
-- `VerifyFingerprint`.
use eqrcp.Base.{
  ℕ, ◌+◌, String, Bool, true, false, not, ◌&&◌, ◌||◌, List, [], ◌∷◌, none, some, leb, ◌==◌, ◌=ₛ◌,
  if◌then◌else◌,
}
use eqrcp.Base.Int.{ℤ}
use eqrcp.License.{LicenseCertificate, Library, Fingerprint}

module _ (x : Library) where
  open x use {show_int, concat, decode_hex, byte_count, key_ok, ed25519_verify}

  -- The fields of a message with a bar between them.
  joined : String → List String → String
  joined first [] = first
  joined first (f ∷ fs) = joined (concat first (concat "|" f)) fs

  -- With the device's id, without it, and with an empty id.
  unfoldable pub license_payload_v2 : LicenseCertificate → (device_id : String) → String
  unfolding joined
  license_payload_v2 c device_id = joined c.license_code (
      c.tier
      ∷ c.uuid_hash
      ∷ c.cpu_hash
      ∷ c.disk_hash
      ∷ device_id
      ∷ c.expires_at
      ∷ show_int c.max_devices
      ∷ [])

  unfoldable pub license_payload_v1 : LicenseCertificate → String
  unfolding joined
  license_payload_v1 c =
      joined c.license_code (
        c.tier
        ∷ c.uuid_hash
        ∷ c.cpu_hash
        ∷ c.disk_hash
        ∷ c.expires_at
        ∷ show_int c.max_devices
        ∷ [])

  unfoldable pub sync_payload_v2 : LicenseCertificate → (device_id : String) → String
  unfolding joined
  sync_payload_v2 c device_id = joined "OK" (
      c.license_code ∷ c.uuid_hash ∷ c.cpu_hash ∷ c.disk_hash ∷ device_id ∷ c.last_online_sync_time
      ∷ [])

  unfoldable pub sync_payload_v1 : LicenseCertificate → String
  unfolding joined
  sync_payload_v1 c =
      joined "OK"
        (c.license_code ∷ c.uuid_hash ∷ c.cpu_hash ∷ c.disk_hash ∷ c.last_online_sync_time ∷ [])

  -- Whether the text is a signature of the first message, of the second, or of the third if the device's
  -- id is empty.
  unfoldable pub signs : (signature v2 v1 v2_empty device_id : String) → Bool
  signs signature v2 v1 v2_empty device_id = elim (decode_hex signature) [
    | none ↦ false
    | some bytes ↦
        if not key_ok
        then false
        else if ed25519_verify v2 bytes
        then true
        else if ed25519_verify v1 bytes
        then true
        else if device_id =ₛ "" && ed25519_verify v2_empty bytes
        then true
        else false
  ]

  unfoldable pub verify_license_signature : LicenseCertificate → Bool
  verify_license_signature c =
      signs c.signature (license_payload_v2 c c.device_id) (license_payload_v1 c)
        (license_payload_v2 c "") c.device_id

  unfoldable pub verify_sync_signature : LicenseCertificate → Bool
  verify_sync_signature c =
      if c.verify_signature =ₛ "" || c.last_online_sync_time =ₛ ""
      then false
      else signs c.verify_signature (sync_payload_v2 c c.device_id) (sync_payload_v1 c)
          (sync_payload_v2 c "") c.device_id

  unfoldable pub verify_sync_usage_signature :
      (device_id usage_date : String)
      → (used_seconds used_transfers : ℤ) → (quota_exceeded : Bool)
      → (server_time signature : String) → Bool
  unfolding joined
  verify_sync_usage_signature device_id usage_date seconds transfers exceeded server_time
        signature =
      let payload = joined "SYNC" (
        device_id
        ∷ usage_date
        ∷ show_int seconds
        ∷ show_int transfers
        ∷ (if exceeded then "1" else "0")
        ∷ server_time
        ∷ []) in
      elim (decode_hex signature) [
        | none ↦ false
        | some bytes ↦ key_ok && (byte_count bytes == 64 && ed25519_verify payload bytes)
      ]

-- A point for a hash that is known on both sides and agrees.
abbrev pub agrees : String → String → ℕ
agrees h k = if not (h =ₛ "") && (not (k =ₛ "") && h =ₛ k) then 1 else 0

unfoldable pub verify_fingerprint : Fingerprint → LicenseCertificate → Bool
verify_fingerprint f c =
    leb 2 (agrees c.uuid_hash f.uuid + agrees c.cpu_hash f.cpu + agrees c.disk_hash f.disk)
