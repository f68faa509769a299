-- ===== src/License/Synced.antt =====
-- pkg/server/license.go: what each outcome of the online sync does to the license.
use eqrcp.Base.{
  ◌≡◌, refl, ◌⊎◌, inl, inr, String, Bool, true, false, not, ◌&&◌, Option, none, some, arith,
  Bool-cases,
}
use eqrcp.Quota.Usage.{Host}
use eqrcp.Chat.{TextLibrary}
use eqrcp.License.{LicenseCertificate, Library}
use eqrcp.License.Signatures.{verify_license_signature}
use eqrcp.License.Memory.{App}
use eqrcp.License.Local.{Occasion, get_local_license_info, get_authority_device_id}
use eqrcp.License.Online.{
  VerifyApiResponse, Reply, no_license, invalid_license_signature, apply_reply, recently_synced,
  sync_found, do_online_license_sync,
}
use eqrcp.License.Replies.{
  Untouched, Untouched-self, Untouched-trans, get_local_license_info-Untouched,
  get_authority_device_id-Untouched, Failed, Lost, Lost-after, Renewed, Renewed-after,
  apply_reply-outcome,
}

-- The certificate that the program has, from its cache or its file.
abbrev pub Own : Library → App → LicenseCertificate → Type 0
Own lib s c = ((get_local_license_info s).1 ≡ some c) × (verify_license_signature lib c ≡ true)

-- No sync is made: another is in progress, or one that is not forced finds that the last was less
-- than twelve hours ago.
abbrev pub Skipped : Library → (force in_flight : Bool) → Occasion → App → Type 0
Skipped lib force in_flight o s =
    (in_flight ≡ true)
    ⊎ ((force ≡ false)
        × ((c : LicenseCertificate) × Own lib s c × (recently_synced lib c o.moment.now ≡ true)))

module _ (lib : Library) (h : Host) (x : TextLibrary) (to_upper : String → String) where
  sync_due-outcome :
      (o : Occasion) (s : App) (c : LicenseCertificate) (reply : Reply (Option VerifyApiResponse))
      → o.moment.write_ok ≡ true
      → let r = apply_reply lib h x to_upper o (get_authority_device_id o s).0 c reply in
        Failed o s r ⊎ Lost o s reply r ⊎ Renewed lib o s c reply r
  sync_due-outcome o s c reply ok =
      let s' = (get_authority_device_id o s).0 in
      let same = get_authority_device_id-Untouched o s in
      let r = apply_reply lib h x to_upper o s' c reply in
      elim (apply_reply-outcome lib h x to_upper o s' c reply ok) [
        | inl (e, is_error, other, kept) ↦
            inl (e, is_error, other, Untouched-trans o s s' r.0 same kept)
        | inr (inl lost) ↦ inr (inl (Lost-after o s s' reply r same lost))
        | inr (inr renewed) ↦ inr (inr (Renewed-after lib o s s' c reply r same renewed))
      ]

  sync_found-outcome :
      (force : Bool) (o : Occasion) (s : App) (reply : Reply (Option VerifyApiResponse))
      (found : Option LicenseCertificate)
      → o.moment.write_ok ≡ true
      → let r = sync_found lib h x to_upper force o s reply found in
        Failed o s r
        ⊎ ((c : LicenseCertificate) × (found ≡ some c)
            × (verify_license_signature lib c ≡ true)
            × (((force ≡ false)
                  × (recently_synced lib c o.moment.now ≡ true)
                  × (r.1 ≡ none)
                  × Untouched o s r.0)
                ⊎ Lost o s reply r
                ⊎ Renewed lib o s c reply r))
  unfolding sync_found
  sync_found-outcome force o s reply none ok = inl (no_license, refl, λ p. cc, Untouched-self o s)
  sync_found-outcome force o s reply (some c) ok =
      elim (Bool-cases (verify_license_signature lib c)) [
        | inr foreign ↦
            rw (foreign, sync_found)
              (inl (invalid_license_signature, refl, λ p. cc, Untouched-self o s))
        | inl genuine ↦ elim (Bool-cases (not force && recently_synced lib c o.moment.now)) [
          | inl recent ↦
              rw (genuine, sync_found)
                (rw recent (
                  inr (
                    c,
                    refl,
                    genuine,
                    inl (ground (arith, recent), ground (arith, recent), refl, Untouched-self o s),
                  )))
          | inr due ↦
              rw (genuine, sync_found)
                (rw due (elim (sync_due-outcome o s c reply ok) [
                  | inl failed ↦ inl failed
                  | inr changed ↦ inr (c, refl, genuine, inr changed)
                ]))
        ]
      ]

  pub do_online_license_sync-outcome :
      (force in_flight : Bool) (o : Occasion) (s : App) (reply : Reply (Option VerifyApiResponse))
      → o.moment.write_ok ≡ true
      → let r = do_online_license_sync lib h x to_upper force in_flight o s reply in
        (Skipped lib force in_flight o s × (r.1 ≡ none) × Untouched o s r.0)
        ⊎ Failed o s r
        ⊎ ((c : LicenseCertificate) × Own lib s c × (Lost o s reply r ⊎ Renewed lib o s c reply r))
  unfolding do_online_license_sync
  do_online_license_sync-outcome force true o s reply ok = inl (inl refl, refl, Untouched-self o s)
  do_online_license_sync-outcome force false o s reply ok =
      let (s', found) = get_local_license_info s in
      let same = get_local_license_info-Untouched o s in
      let r = sync_found lib h x to_upper force o s' reply found in
      elim (sync_found-outcome force o s' reply found ok) [
        | inl (e, is_error, other, kept) ↦
            inr (inl (e, is_error, other, Untouched-trans o s s' r.0 same kept))
        | inr (c, own, genuine, inl (free, recent, fine, kept)) ↦
            inl
              (inr (free, (c, (own, genuine), recent)), fine, Untouched-trans o s s' r.0 same kept)
        | inr (c, own, genuine, inr (inl lost)) ↦
            inr (inr (c, (own, genuine), inl (Lost-after o s s' reply r same lost)))
        | inr (c, own, genuine, inr (inr renewed)) ↦
            inr (inr (c, (own, genuine), inr (Renewed-after lib o s s' c reply r same renewed)))
      ]

  -- A forced sync, with no other in progress, that ends without an error has renewed the license.
  pub forced-Renewed :
      (o : Occasion) (s : App) (reply : Reply (Option VerifyApiResponse))
      → o.moment.write_ok ≡ true
      → (do_online_license_sync lib h x to_upper true false o s reply).1 ≡ none
      → (c : LicenseCertificate) × Renewed lib o s c reply
          (do_online_license_sync lib h x to_upper true false o s reply)
  forced-Renewed o s reply ok fine = elim (do_online_license_sync-outcome true false o s reply ok) [
    | inl (inl busy, rest, kept) ↦ absurd (cc)
    | inl (inr (free, rest), skipped, kept) ↦ absurd (cc)
    | inr (inl (e, is_error, other, kept)) ↦ absurd (cc)
    | inr (inr (c, own, inl lost)) ↦ let refused = lost.0 in absurd (cc)
    | inr (inr (c, own, inr renewed)) ↦ (c, renewed)
  ]
