-- ===== src/Examples/Licenses.antt =====
-- pkg/server/license.go at concrete inputs.
use eqrcp.Base.{◌≡◌, refl, inl, arith, eq_iff, true, false, none, some, [], ◌∷◌, ◌&&◌, ◌=ₛ◌, ◌↔◌}
use Prim.Native.String.{◌++◌ as joined}
use eqrcp.Base.Int.{pos}
use eqrcp.Quota.Load.{read_file}
use eqrcp.License.{LicenseCertificate, Library}
use eqrcp.Quota.Usage.{rollback_detected}
use eqrcp.License.Signatures.{
  signs, verify_license_signature, verify_sync_signature, verify_fingerprint,
}
use eqrcp.License.Memory.{App, get_paid_status, set_paid_status, set_paid_details}
use eqrcp.License.Local.{Occasion, get_local_license_info, verify_local_license}
use eqrcp.License.Online.{
  VerifyApiResponse, answer, updated_certificate, check_updated, adopt, apply_body, apply_reply,
  sync_found, do_online_license_sync,
}
use eqrcp.License.Activation.{
  certificate, activated, identified, check_activated, apply_activation, apply_activation_reply,
  activate_license_online_internal,
}
use eqrcp.License.Agreement.{set_paid_status-announces_nothing}
use eqrcp.License.Accepted.{
  Acceptable, Settled, run_started, verify_local_license-Acceptable, verify_local_license-Settled,
}
use eqrcp.License.Restart.{activation-restarts, sync-restarts}
use eqrcp.Examples.Usage.{go_library, moment, limiter}
use eqrcp.Examples.Hosts.{plain, session}

-- One signature is good for all, and each time is the morning.
abbrev library : Library
library = record {
  show_int = λ n. "2";
  concat = joined;
  decode_hex = λ s. some s;
  byte_count = λ s. 64;
  key_ok = true;
  ed25519_verify = λ m s. s =ₛ "signed";
  parse_rfc3339 = λ s. some 0;
  format_rfc3339 = λ t. "morning";
}

abbrev code : LicenseCertificate
code = record {
  license_code = "code";
  tier = "PRO";
  uuid_hash = "u";
  cpu_hash = "c";
  disk_hash = "d";
  device_id = "";
  expires_at = "LIFETIME";
  max_devices = pos 2;
  activated_devices = pos 1;
  buyer_email = "";
  signature = "signed";
  last_online_sync_time = "morning";
  last_seen_local_time = "";
  verify_signature = "signed";
}

-- The disk was replaced.
abbrev visit : Occasion
visit = record {
  moment = moment 5;
  fingerprint = record { uuid = "u"; cpu = "c"; disk = "e" };
  file_ok = true;
  read_again = some code;
  cached_device_id = "";
}

abbrev free : App
free = record {
  memory = record {
    is_paid = false;
    tier = "";
    code_date = "";
    is_tampered = false;
    license_ready = false;
  };
  file = some code;
  cached_license = none;
  has_cached_license = false;
  server_dev_authorized = false;
  authority = record { authority_device_id = ""; authority_device_id_checked = false };
  limiter = limiter;
  active_session = some session;
  events = [];
}

set_paid_status-announces_nothing_example :
    (set_paid_status go_library plain
      (λ s. s)
      free
      true
      "morning"
      "LIFETIME"
      "PRO"
      (moment 0)).active_session
    ≡ some session
unfolding rollback_detected read_file
set_paid_status-announces_nothing_example =
    set_paid_status-announces_nothing go_library plain (λ s. s) free true "morning" "LIFETIME" "PRO"
      (moment 0) refl refl

verify_local_license-Acceptable_example :
    ((verify_local_license library go_library plain (λ s. s) visit free).1 ≡ true)
    ↔ ((c : LicenseCertificate) × (some code ≡ some c) × Acceptable library visit c)
verify_local_license-Acceptable_example =
    verify_local_license-Acceptable library go_library plain (λ s. s) visit free

verify_local_license-Settled_example :
    let r = verify_local_license library go_library plain (λ s. s) visit free in
    Settled r.0 r.1
    × (get_paid_status
          (run_started go_library plain (λ s. s) r.0 ((false, moment 6) ∷ (true, moment 7) ∷ []))
        ≡ (r.1 && false))
verify_local_license-Settled_example =
    verify_local_license-Settled library go_library plain (λ s. s) visit free
      ((false, moment 6) ∷ (true, moment 7) ∷ []) refl

activates :
    (activate_license_online_internal library go_library plain
      (λ s. s)
      visit
      free
      (answer 200 (certificate code))).1
    ≡ activated "code"
unfolding activate_license_online_internal apply_activation_reply apply_activation identified
    check_activated verify_license_signature verify_sync_signature verify_fingerprint signs
activates = refl

abbrev activation : App
activation =
    (activate_license_online_internal library go_library plain (λ s. s) visit free
      (answer 200 (certificate code))).0

activation-restarts_example :
    (verify_local_license library go_library plain
      (λ s. s)
      visit
      (record free { file = activation.file })).1
    ≡ true
activation-restarts_example =
    activation-restarts library go_library plain (λ s. s) visit visit free
      (record free { file = activation.file }) 200 code refl activates refl
      (ground (arith, eq_iff "signed" "")) refl (inl refl) (0, refl, ground arith) (ground arith)

abbrev verified : VerifyApiResponse
verified = record {
  status = "OK";
  license_code = "code";
  tier = "PRO";
  uuid_hash = "u";
  cpu_hash = "c";
  disk_hash = "d";
  device_id = "";
  max_devices = pos 2;
  activated_devices = pos 1;
  expires_at = "LIFETIME";
  buyer_email = "";
  certificate_signature = "signed";
  current_time = "morning";
  sync_signature = "signed";
  is_dev = false;
}

abbrev synced : App
synced =
    (do_online_license_sync library go_library plain (λ s. s) true false visit free
      (answer 200 (some verified))).0

syncs :
    (do_online_license_sync library go_library plain
      (λ s. s)
      true
      false
      visit
      free
      (answer 200 (some verified))).1
    ≡ none
unfolding do_online_license_sync sync_found apply_reply apply_body check_updated updated_certificate
    get_local_license_info verify_license_signature verify_sync_signature verify_fingerprint signs
syncs = refl

sync_writes : synced.file ≡ some (updated_certificate library verified 5)
unfolding do_online_license_sync sync_found apply_reply apply_body check_updated updated_certificate
    get_local_license_info verify_license_signature verify_sync_signature verify_fingerprint signs
    adopt set_paid_status set_paid_details
sync_writes = refl

sync-restarts_example :
    (verify_local_license library go_library plain
      (λ s. s)
      visit
      (record free { file = some (updated_certificate library verified 5) })).1
    ≡ true
unfolding updated_certificate
sync-restarts_example =
    sync-restarts library go_library plain (λ s. s) visit visit free
      (record free { file = some (updated_certificate library verified 5) })
      (answer 200 (some verified)) (updated_certificate library verified 5) refl refl refl syncs
      sync_writes refl refl (inl refl) (0, refl, ground arith) (ground arith)
