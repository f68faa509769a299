-- ===== src/License.antt =====
-- pkg/server/license.go: the license certificate and what the program calls of Go's libraries for it.
pub mod Signatures
pub mod Memory
pub mod Local
pub mod Online
pub mod Activation
pub mod Agreement
pub mod Accepted
pub mod Restart
pub mod Replies
pub mod Synced
use eqrcp.Base.{ℕ, String, Bool, Option}
use eqrcp.Base.Int.{ℤ}
use eqrcp.Base.Clock.{Time}

pub record LicenseCertificate : Type 0 where
  pub license_code : String
  pub tier : String
  pub uuid_hash : String
  pub cpu_hash : String
  pub disk_hash : String
  pub device_id : String
  pub expires_at : String
  pub max_devices : ℤ
  pub activated_devices : ℤ
  pub buyer_email : String
  pub signature : String
  pub last_online_sync_time : String
  pub last_seen_local_time : String
  pub verify_signature : String

-- `%d` and the concatenation of fmt.Sprintf, hex.DecodeString, `len` of its bytes, whether the key that is built in is one,
-- ed25519.Verify with this key, and the layout RFC 3339 of package time.
pub record Library : Type 0 where
  pub show_int : ℤ → String
  pub concat : String → String → String
  pub decode_hex : String → Option String
  pub byte_count : String → ℕ
  pub key_ok : Bool
  pub ed25519_verify : (message signature : String) → Bool
  pub parse_rfc3339 : String → Option Time
  pub format_rfc3339 : Time → String

-- `GetDeviceFingerprintHashes`: what this device is, with "" for what cannot be read.
pub record Fingerprint : Type 0 where
  pub uuid : String
  pub cpu : String
  pub disk : String
