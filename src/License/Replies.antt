-- ===== src/License/Replies.antt =====
-- pkg/server/license.go: what each answer of the license server does to the license.
use eqrcp.Base.{
  ◌≡◌, ◌≢◌, refl, ap, ◌∙◌, ◌⊎◌, inl, inr, String, true, false, ◌||◌, Option, none, some, arith,
  ◌=ₛ◌, ◌==◌, Bool-cases, eq_iff, if◌then◌else◌,
}
use eqrcp.Quota.Usage.{Host}
use eqrcp.Chat.{TextLibrary}
use eqrcp.License.{LicenseCertificate, Library}
use eqrcp.License.Signatures.{verify_license_signature, verify_sync_signature, verify_fingerprint}
use eqrcp.License.Memory.{App, Authority, set_paid_status, set_paid_details}
use eqrcp.License.Local.{
  Occasion, get_local_license_info, device_id_from, get_authority_device_id, removed, reset_license,
  set_authority_device_id,
}
use eqrcp.License.Online.{
  Reply, no_answer, unreadable, answer, VerifyApiResponse, SyncError, revoked, unparsed_response,
  status_not_ok, network_error, unread_response, server_status, installed,
  set_server_dev_authorized, updated_certificate, check_updated, adopt, adopt_checked, apply_body,
  apply_reply,
}
use eqrcp.License.Accepted.{Settled, set_unpaid-Settled, set_paid_status-Settled}

-- The id of the device as it is noted when it is asked for: the one that is known, or the one of its file.
abbrev pub looked_up : Occasion → Authority → Authority
looked_up o a = record {
  authority_device_id =
      if a.authority_device_id_checked || o.cached_device_id =ₛ ""
      then a.authority_device_id
      else o.cached_device_id;
  authority_device_id_checked = true;
}

-- Only caches of what was read are filled: all else is as before, the license that the program has too.
abbrev pub Untouched : Occasion → (before after : App) → Type 0
Untouched o before after =
    (after.memory ≡ before.memory)
    × (after.file ≡ before.file)
    × (after.limiter ≡ before.limiter)
    × (after.active_session ≡ before.active_session)
    × (after.events ≡ before.events)
    × (after.server_dev_authorized ≡ before.server_dev_authorized)
    × ((get_local_license_info after).1 ≡ (get_local_license_info before).1)
    × ((after.authority ≡ before.authority) ⊎ (after.authority ≡ looked_up o before.authority))

pub Untouched-self : (o : Occasion) (s : App) → Untouched o s s
Untouched-self o s = (refl, refl, refl, refl, refl, refl, refl, inl refl)

looked_up_trans :
    (o : Occasion) {a b c : Authority}
    → (b ≡ a) ⊎ (b ≡ looked_up o a)
    → (c ≡ b) ⊎ (c ≡ looked_up o b)
    → (c ≡ a) ⊎ (c ≡ looked_up o a)
looked_up_trans o (inl e) (inl f) = inl (f ∙ e)
looked_up_trans o (inl e) (inr f) = inr (f ∙ ap (looked_up o) e)
looked_up_trans o (inr e) (inl f) = inr (f ∙ e)
looked_up_trans o (inr e) (inr f) = inr (f ∙ ap (looked_up o) e)

pub Untouched-trans :
    (o : Occasion) (a b c : App) → Untouched o a b → Untouched o b c → Untouched o a c
Untouched-trans o a b c (m, f, l, s, e, d, i, u) (m', f', l', s', e', d', i', u') =
    (m' ∙ m, f' ∙ f, l' ∙ l, s' ∙ s, e' ∙ e, d' ∙ d, i' ∙ i, looked_up_trans o u u')

pub get_local_license_info-Untouched :
    (o : Occasion) (s : App) → Untouched o s (get_local_license_info s).0
unfolding get_local_license_info
get_local_license_info-Untouched o s = elim (Bool-cases s.has_cached_license) [
  | inl known ↦
      rw (known, get_local_license_info) (refl, refl, refl, refl, refl, refl, refl, inl refl)
  | inr new ↦ rw (new, get_local_license_info) (refl, refl, refl, refl, refl, refl, refl, inl refl)
]

device_id_from-Untouched :
    (o : Occasion) (s : App) (found : Option LicenseCertificate)
    → Untouched o s (device_id_from o s found).0
unfolding device_id_from get_local_license_info
device_id_from-Untouched o s found =
    let own : String = elim found [ none ↦ "" | some c ↦ c.device_id ] in
    elim (Bool-cases (own =ₛ "")) [
      | inl unknown ↦
          rw (unknown, device_id_from) (refl, refl, refl, refl, refl, refl, ground arith, inr refl)
      | inr known ↦ rw (known, device_id_from) (Untouched-self o s)
    ]

pub get_authority_device_id-Untouched :
    (o : Occasion) (s : App) → Untouched o s (get_authority_device_id o s).0
unfolding get_authority_device_id
get_authority_device_id-Untouched o s =
    let (s', found) = get_local_license_info s in
    Untouched-trans o s s' (device_id_from o s' found).0 (get_local_license_info-Untouched o s)
      (device_id_from-Untouched o s' found)

-- An error that is no refusal of the device, and nothing changes.
abbrev pub Failed : Occasion → App → App × Option SyncError → Type 0
Failed o s r = (e : SyncError) × (r.1 ≡ some e) × (e ≢ revoked) × Untouched o s r.0

-- The server refuses the device, and the license is reset.
abbrev pub Lost :
    Occasion → App → Reply (Option VerifyApiResponse) → App × Option SyncError → Type 0
Lost o s reply r =
    (r.1 ≡ some revoked)
    × ((body : Option VerifyApiResponse) × ((reply ≡ answer 403 body) ⊎ (reply ≡ answer 404 body)))
    × Settled r.0 false
    × (r.0.cached_license ≡ none)
    × (r.0.has_cached_license ≡ true)
    × (r.0.file ≡ (if o.file_ok then none else s.file))
    × (r.0.server_dev_authorized ≡ s.server_dev_authorized)

pub Lost-after :
    (o : Occasion) (s s' : App) (reply : Reply (Option VerifyApiResponse))
    (r : App × Option SyncError)
    → Untouched o s s'
    → Lost o s' reply r
    → Lost o s reply r
Lost-after o s s' reply r same (e, refused, settled, gone, known, file, dev) = (
  e,
  refused,
  settled,
  gone,
  known,
  file ∙ ap (λ (f : Option LicenseCertificate). if o.file_ok then none else f) same.1,
  dev ∙ same.5,
)

module _ (lib : Library) where
  -- The answer is about the same license and all its parts are signed and for this device.
  abbrev pub Verified : Occasion → LicenseCertificate → VerifyApiResponse → Type 0
  Verified o c r =
      let updated = updated_certificate lib r o.moment.now in
      (r.status ≡ "OK")
      × (updated.license_code ≡ c.license_code)
      × (verify_license_signature lib updated ≡ true)
      × (verify_fingerprint o.fingerprint updated ≡ true)
      × (verify_sync_signature lib updated ≡ true)

  check_updated-none :
      (o : Occasion) (updated c : LicenseCertificate)
      → check_updated lib o updated c ≡ none
      → (updated.license_code ≡ c.license_code)
        × (verify_license_signature lib updated ≡ true)
        × (verify_fingerprint o.fingerprint updated ≡ true)
        × (verify_sync_signature lib updated ≡ true)
  unfolding check_updated
  check_updated-none o updated c e = ground (arith, eq_iff updated.license_code c.license_code)

  check_updated-revoked :
      (o : Occasion) (updated c : LicenseCertificate) → check_updated lib o updated c ≢ some revoked
  unfolding check_updated
  check_updated-revoked o updated c = ground arith

  -- The certificate of the answer is in the cache, and in the file if that can be written, and the rights
  -- of a developer are those that the answer gives.
  abbrev pub Installed : Occasion → App → VerifyApiResponse → App → Type 0
  Installed o s response after =
      let updated = updated_certificate lib response o.moment.now in
      (after.cached_license ≡ some updated)
      × (after.has_cached_license ≡ true)
      × (after.file ≡ (if o.file_ok then some updated else s.file))
      × (after.server_dev_authorized ≡ response.is_dev)

  -- The certificate of a verified answer takes the place of this one.
  abbrev pub Renewed :
      Occasion
      → App
      → LicenseCertificate
      → Reply (Option VerifyApiResponse)
      → App × Option SyncError
      → Type 0
  Renewed o s c reply r =
      (r.1 ≡ none)
      × ((response : VerifyApiResponse) × (reply ≡ answer 200 (some response))
          × Verified o c response
          × Installed o s response r.0)
      × Settled r.0 true

  pub Renewed-after :
      (o : Occasion) (s s' : App) (c : LicenseCertificate)
      (reply : Reply (Option VerifyApiResponse)) (r : App × Option SyncError)
      → Untouched o s s'
      → Renewed o s' c reply r
      → Renewed o s c reply r
  Renewed-after o s s' c reply r same
        (e, (response, is_reply, verified, (cached, known, file, dev)), settled) =
      let keeps = λ (f : Option LicenseCertificate).
        if o.file_ok then some (updated_certificate lib response o.moment.now) else f in
      (e, (response, is_reply, verified, (cached, known, file ∙ ap keeps same.1, dev)), settled)

  module _ (h : Host) (x : TextLibrary) (to_upper : String → String) where
    adopt-Settled :
        (o : Occasion) (s : App) (r : VerifyApiResponse)
        → o.moment.write_ok ≡ true
        → Settled (adopt lib h x to_upper o s r) true
          × Installed o s r (adopt lib h x to_upper o s r)
    unfolding adopt set_paid_status set_paid_details set_server_dev_authorized
        set_authority_device_id
    adopt-Settled o s r ok =
        let updated = updated_certificate lib r o.moment.now in
        (
          set_paid_status-Settled h x to_upper (installed lib o s r) true
              updated.last_online_sync_time updated.expires_at updated.tier o.moment ok,
          (refl, refl, refl, ground arith),
        )

    adopt_checked-outcome :
        (o : Occasion) (s : App) (r : VerifyApiResponse) (e : Option SyncError)
        → o.moment.write_ok ≡ true
        → e ≢ some revoked
        → Failed o s (adopt_checked lib h x to_upper o s r e)
          ⊎ ((e ≡ none)
              × ((adopt_checked lib h x to_upper o s r e).1 ≡ none)
              × Installed o s r (adopt_checked lib h x to_upper o s r e).0
              × Settled (adopt_checked lib h x to_upper o s r e).0 true)
    adopt_checked-outcome o s r none ok other =
        let (settled, placed) = adopt-Settled o s r ok in inr (refl, refl, placed, settled)
    adopt_checked-outcome o s r (some e) ok other =
        inl (e, refl, λ p. other (ap some p), Untouched-self o s)

    apply_body-outcome :
        (o : Occasion) (s : App) (c : LicenseCertificate) (body : Option VerifyApiResponse)
        → o.moment.write_ok ≡ true
        → let r = apply_body lib h x to_upper o s c body in
          Failed o s r ⊎ Renewed o s c (answer 200 body) r
    unfolding apply_body
    apply_body-outcome o s c none ok = inl (unparsed_response, refl, λ p. cc, Untouched-self o s)
    apply_body-outcome o s c (some r) ok = elim (Bool-cases (r.status =ₛ "OK")) [
      | inr other ↦ rw (other, apply_body) (inl (status_not_ok, refl, λ p. cc, Untouched-self o s))
      | inl fine ↦
          let e = check_updated lib o (updated_certificate lib r o.moment.now) c in
          rw (fine, apply_body)
            (elim (adopt_checked-outcome o s r e ok (check_updated-revoked o _ c)) [
              | inl failed ↦ inl failed
              | inr (passed, done, placed, settled) ↦
                  let (same, genuine, ours, synced) = check_updated-none o _ c passed in
                  inr (
                    done,
                    (r, refl, ((eq_iff r.status "OK").0 fine, same, genuine, ours, synced), placed),
                    settled,
                  )
            ])
    ]

    reset_license-Lost :
        (o : Occasion) (s : App) (reply : Reply (Option VerifyApiResponse))
        (body : Option VerifyApiResponse)
        → o.moment.write_ok ≡ true
        → (reply ≡ answer 403 body) ⊎ (reply ≡ answer 404 body)
        → Lost o s reply (reset_license h x to_upper o s, some revoked)
    unfolding reset_license set_paid_status set_paid_details
    reset_license-Lost o s reply body ok refused = (
      refl,
      (body, refused),
      set_unpaid-Settled h x to_upper (removed o s) o.moment ok,
      refl,
      refl,
      refl,
      refl,
    )

    -- Which replies fail, reset the license or renew it.
    pub apply_reply-outcome :
        (o : Occasion) (s : App) (c : LicenseCertificate) (reply : Reply (Option VerifyApiResponse))
        → o.moment.write_ok ≡ true
        → let r = apply_reply lib h x to_upper o s c reply in
          Failed o s r ⊎ Lost o s reply r ⊎ Renewed o s c reply r
    unfolding apply_reply apply_body
    apply_reply-outcome o s c no_answer ok = inl (network_error, refl, λ p. cc, Untouched-self o s)
    apply_reply-outcome o s c unreadable ok =
        inl (unread_response, refl, λ p. cc, Untouched-self o s)
    apply_reply-outcome o s c (answer status body) ok =
        elim (Bool-cases (status == 403 || status == 404)) [
          | inl refused ↦
              let which : (status ≡ 403) ⊎ (status ≡ 404) = ground arith in
              let reply : (answer status body ≡ answer 403 body)
                  ⊎ (answer status body ≡ answer 404 body) =
                elim which [
                  | inl e ↦ inl (ap (λ n. answer n body) e)
                  | inr e ↦ inr (ap (λ n. answer n body) e)
                ] in
              rw (refused, apply_reply) (inr (inl (reset_license-Lost o s _ body ok reply)))
          | inr other ↦ elim (Bool-cases (status == 200)) [
            | inr bad ↦
                rw (other, apply_reply)
                  (rw bad (inl (server_status status, refl, λ p. cc, Untouched-self o s)))
            | inl good ↦
                let status_is : status ≡ 200 = ground arith in
                rw (other, apply_reply)
                  (rw good (elim (apply_body-outcome o s c body ok) [
                    | inl failed ↦ inl failed
                    | inr (done, (response, e, verified, placed), settled) ↦ inr (
                        inr (
                          done,
                          (response, ap (λ n. answer n body) status_is ∙ e, verified, placed),
                          settled,
                        ))
                  ]))
          ]
        ]
