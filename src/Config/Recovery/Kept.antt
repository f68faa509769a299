-- ===== src/Config/Recovery/Kept.antt =====
-- What `BackupCorruptConfigFile` leaves of the file.
use eqrcp.Base.{
  ◌≡◌, refl, ap, ◌∙◌, sym, subst, ◌⊎◌, inl, inr, String, Bool, true, false, List, [], ◌∷◌, ◌++◌,
  none, some, Option-cases, Bool-cases, arith, ◌=ₛ◌, if◌then◌else◌,
}
use eqrcp.Base.Bytes.{Bytes}
use eqrcp.Base.Assoc.{lookup, insert, erase}
use eqrcp.Config.Files.{
  Files, write_file, write_file-other, write_file-whole, rename, rename_refused, rename_works,
  lookup-moved, lookup-moved_from, lookup-moved_other, lookup-insert_same, lookup-insert_other,
  neq_sym,
}
use eqrcp.Config.Recovery.{
  World, Moment, Backup, backed_up, unreadable, no_backup, no_reset, SelfHealEvent,
  record_self_heal_event, ensure_config_file, healed, copy_away, back_up,
  backup_corrupt_config_file,
}

module _ (w : World) (config_path : String) (t : Moment) (text : Bytes) where
  -- After a backup the content stands at the backup's path, the configuration is empty or absent, and
  -- one event is queued. After any error no event is, and the content stands where it did; only when
  -- the file could not be emptied it stands in the backup.
  abbrev pub Outcome : Files → List SelfHealEvent → Backup → Type 0
  Outcome files events (backed_up path) =
      (path ≡ t.backup_path)
      × (lookup t.backup_path files ≡ some text)
      × ((lookup config_path files ≡ none) ⊎ (lookup config_path files ≡ some []))
      × (events ≡ w.self_heal_events ++ healed config_path t ∷ [])
  Outcome files events no_reset =
      (lookup t.backup_path files ≡ some text) × (events ≡ w.self_heal_events)
  Outcome files events _ = (lookup config_path files ≡ some text) × (events ≡ w.self_heal_events)

  abbrev pub OthersKept : Files → Type 0
  OthersKept files =
      (path : String)
      → (config_path =ₛ path) ≡ false
      → (t.backup_path =ₛ path) ≡ false
      → lookup path files ≡ lookup path w.files

  abbrev pub IsKept : World × Backup → Type 0
  IsKept (w', result) = Outcome w'.files w'.self_heal_events result × OthersKept w'.files

ensure_config_file-other :
    (fs : Files) (path other : String) (works : Bool)
    → (path =ₛ other) ≡ false
    → lookup other (ensure_config_file fs path works) ≡ lookup other fs
unfolding ensure_config_file
ensure_config_file-other fs path other works h = elim (Option-cases (lookup path fs)) [
  | inr (text, e) ↦ rw (e, ensure_config_file) refl
  | inl e ↦ elim (Bool-cases works) [
    | inl good ↦ rw (e, ensure_config_file) (rw good (lookup-insert_other path other [] fs h))
    | inr bad ↦ rw (e, ensure_config_file) (rw bad refl)
  ]
]

ensure_config_file-absent :
    (fs : Files) (path : String) (works : Bool)
    → lookup path fs ≡ none
    → (lookup path (ensure_config_file fs path works) ≡ none)
      ⊎ (lookup path (ensure_config_file fs path works) ≡ some [])
unfolding ensure_config_file
ensure_config_file-absent fs path works e = elim (Bool-cases works) [
  | inl good ↦ inr (rw (e, ensure_config_file) (rw good (lookup-insert_same path [] fs)))
  | inr bad ↦ inl (rw (e, ensure_config_file) (rw bad e))
]

module _ (w : World) (config_path : String) (t : Moment)
    (differ : (t.backup_path =ₛ config_path) ≡ false) where
  copy_away-IsKept :
      (text : Bytes)
      → lookup config_path w.files ≡ some text
      → IsKept w config_path t text (copy_away w config_path text t)
  unfolding copy_away record_self_heal_event
  copy_away-IsKept text there =
      let f1 = (write_file w.files t.backup_path text t.backup_written).0 in
      let f2 = (write_file f1 config_path [] t.reset_written).0 in
      let in_f1 : lookup config_path f1 ≡ some text =
        write_file-other w.files t.backup_path config_path text t.backup_written differ ∙ there in
      let others1 : OthersKept w config_path t text f1 =
        λ path h k. write_file-other w.files t.backup_path path text t.backup_written k in
      let others2 : OthersKept w config_path t text f2 =
        λ path h k. write_file-other f1 config_path path [] t.reset_written h ∙ others1 path h k in
      let Goal = IsKept w config_path t text in
      let result = copy_away w config_path text t in
      elim (Bool-cases t.read_works) [
        | inr bad ↦
            let e : result ≡ (w, unreadable) = rw bad refl in
            subst Goal (sym e) ((there, refl), λ path h k. refl)
        | inl readable ↦
            elim (Bool-cases ((write_file w.files t.backup_path text t.backup_written).1)) [
              | inr bad ↦
                  let e : result ≡ (record w { files = f1 }, no_backup) = ground arith in
                  subst Goal (sym e) ((in_f1, refl), others1)
              | inl saved ↦
                  let copy : lookup t.backup_path f2 ≡ some text =
                    write_file-other f1 config_path t.backup_path [] t.reset_written
                      (neq_sym t.backup_path config_path differ)
                    ∙ write_file-whole w.files t.backup_path text t.backup_written saved in
                  elim (Bool-cases ((write_file f1 config_path [] t.reset_written).1)) [
                    | inr bad ↦
                        let e : result ≡ (record w { files = f2 }, no_reset) = ground arith in
                        subst Goal (sym e) ((copy, refl), others2)
                    | inl emptied ↦
                        let e : result ≡ (
                          record_self_heal_event (record w { files = f2 }) (healed config_path t),
                          backed_up t.backup_path,
                        ) =
                          ground arith in
                        subst Goal (sym e) (
                          (
                            refl,
                            copy,
                            inr (write_file-whole f1 config_path [] t.reset_written emptied),
                            refl,
                          ),
                          others2,
                        )
                  ]
            ]
      ]

  back_up-IsKept :
      (text : Bytes)
      → lookup config_path w.files ≡ some text
      → IsKept w config_path t text (back_up w config_path text t)
  unfolding back_up record_self_heal_event
  back_up-IsKept [] there = ((there, refl), λ path h k. refl)
  back_up-IsKept (b ∷ bs) there = elim (Bool-cases t.rename_works) [
    | inr bad ↦
        let e : rename w.files config_path t.backup_path t.rename_works ≡ (w.files, false) =
          ap (rename w.files config_path t.backup_path) bad
          ∙ rename_refused w.files config_path t.backup_path in
        rw (e, back_up) (copy_away-IsKept (b ∷ bs) there)
    | inl works ↦
        let text : Bytes = b ∷ bs in
        let f = insert t.backup_path text (erase config_path w.files) in
        let e : rename w.files config_path t.backup_path t.rename_works ≡ (f, true) =
          ap (rename w.files config_path t.backup_path) works
          ∙ rename_works w.files config_path t.backup_path text there in
        rw (e, back_up)
          (
            (
              refl,
              ensure_config_file-other f config_path t.backup_path t.create_works
                    (neq_sym t.backup_path config_path differ)
                  ∙ lookup-moved w.files config_path t.backup_path text differ,
              ensure_config_file-absent f config_path t.create_works
                  (lookup-moved_from w.files config_path t.backup_path text differ),
              refl,
            ),
            λ path h k.
                ensure_config_file-other f config_path path t.create_works h
                ∙ lookup-moved_other w.files config_path t.backup_path text differ path k h,
          )
  ]

  -- A corrupted configuration is never lost: however the system calls end, its content stands
  -- afterwards where it did or at the backup's path, and no other file changes. Where a backup is
  -- reported, it is complete, the configuration is empty or gone, and one event is queued; where an error
  -- is, none is queued. The backup's path must be another than the configuration's.
  pub backup_corrupt_config_file-IsKept :
      (text : Bytes)
      → lookup config_path w.files ≡ some text
      → IsKept w config_path t text (backup_corrupt_config_file w config_path t)
  unfolding backup_corrupt_config_file
  backup_corrupt_config_file-IsKept text there = elim (Bool-cases t.stat_works) [
    | inl works ↦
        let e : (if t.stat_works then lookup config_path w.files else none) ≡ some text =
          ground arith in
        rw (e, backup_corrupt_config_file) (back_up-IsKept text there)
    | inr bad ↦
        let e : (if t.stat_works then lookup config_path w.files else none) ≡ none = ground arith in
        rw (e, backup_corrupt_config_file) ((there, refl), λ path h k. refl)
  ]
