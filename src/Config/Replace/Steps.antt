-- ===== src/Config/Replace/Steps.antt =====
-- The steps of `AtomicWriteConfigFile`, each with what it leaves of the files.
use eqrcp.Base.{
  ◌≡◌, refl, ap, ◌∙◌, sym, subst, ◌⊎◌, inl, inr, String, Bool, true, false, Option, none, some,
  Option-cases, Bool-cases, arith, All, ◌=ₛ◌,
}
use eqrcp.Base.Bytes.{Bytes}
use eqrcp.Base.Assoc.{lookup, insert, erase, lookup-erase}
use eqrcp.Config.Files.{
  Files, rename, remove, rename_refused, rename_works, lookup-moved, lookup-moved_from,
  lookup-moved_other, neq_sym,
}
use eqrcp.Config.Replace.{Disk, become, Paths, Attempt, Replaced, replaced, not_renamed, set_aside}

abbrev pub AreDistinct : Paths → Type 0
AreDistinct p =
    ((p.target =ₛ p.tmp_file) ≡ false)
    × ((p.target =ₛ p.backup_old) ≡ false)
    × ((p.tmp_file =ₛ p.backup_old) ≡ false)

module _ (p : Paths) (text : Bytes) (before : Option Bytes) where
  -- The target is as it was or holds the new text in full; or the old file is set aside and the new
  -- text stands in the temporary file, so that neither is lost.
  abbrev pub IsSafe : Files → Type 0
  IsSafe fs =
      (lookup p.target fs ≡ before)
      ⊎ (lookup p.target fs ≡ some text)
      ⊎ ((lookup p.backup_old fs ≡ before) × (lookup p.tmp_file fs ≡ some text))

  -- What each return tells of the files.
  abbrev pub Tells : Replaced → Files → Type 0
  Tells replaced fs = lookup p.target fs ≡ some text
  Tells not_renamed fs =
      ((lookup p.target fs ≡ before) ⊎ (lookup p.backup_old fs ≡ before))
      × (lookup p.tmp_file fs ≡ some text)
  Tells _ fs = lookup p.target fs ≡ before

  abbrev pub AllSafe : Disk × Replaced → Type 0
  AllSafe (d, result) = Tells result d.files × All IsSafe d.past

  -- The disk before the second rename.
  abbrev pub Aside : Disk × Bool → Type 0
  Aside (d, true) =
      (lookup p.target d.files ≡ none)
      × (lookup p.backup_old d.files ≡ before)
      × (lookup p.tmp_file d.files ≡ some text)
      × All IsSafe d.past
  Aside (d, false) =
      (lookup p.target d.files ≡ before)
      × (lookup p.tmp_file d.files ≡ some text)
      × All IsSafe d.past

pub lookup-removed :
    (fs : Files) (path other : String) (works : Bool)
    → (path =ₛ other) ≡ false
    → lookup other (remove fs path works) ≡ lookup other fs
unfolding remove
lookup-removed fs path other works h = ground (arith, lookup-erase path other fs)

module _ (p : Paths) (a : Attempt) (before : Option Bytes) (distinct : AreDistinct p) where
  pub set_aside-Aside :
      (d : Disk)
      → lookup p.target d.files ≡ before
      → lookup p.tmp_file d.files ≡ some a.text
      → All (IsSafe p a.text before) d.past
      → Aside p a.text before (set_aside p a d)
  unfolding set_aside
  set_aside-Aside d same new safe =
      let (target_tmp, target_old, tmp_old) = distinct in
      let Goal = Aside p a.text before in
      elim (Option-cases (lookup p.target d.files)) [
        | inl e ↦
            let r : set_aside p a d ≡ (d, false) = ground (arith, e) in
            subst Goal (sym r) (same, new, safe)
        | inr (old, e) ↦ elim (Bool-cases a.stat_works) [
          | inr bad ↦
              let r : set_aside p a d ≡ (d, false) = ground (arith, e) in
              subst Goal (sym r) (same, new, safe)
          | inl stat ↦ elim (Bool-cases a.set_aside_works) [
            | inr bad ↦
                let m : rename d.files p.target p.backup_old a.set_aside_works ≡ (d.files, false) =
                  ap (rename d.files p.target p.backup_old) bad
                  ∙ rename_refused d.files p.target p.backup_old in
                let r : set_aside p a d ≡ (become d d.files, false) =
                  rw (m, set_aside) (rw e (ground arith)) in
                subst Goal (sym r) (same, new, (inl same, safe))
            | inl works ↦
                let f = insert p.backup_old old (erase p.target d.files) in
                let m : rename d.files p.target p.backup_old a.set_aside_works ≡ (f, true) =
                  ap (rename d.files p.target p.backup_old) works
                  ∙ rename_works d.files p.target p.backup_old old e in
                let r : set_aside p a d ≡ (become d f, true) =
                  rw (m, set_aside) (rw e (ground arith)) in
                let differ = neq_sym p.target p.backup_old target_old in
                let at_old : lookup p.backup_old f ≡ before =
                  lookup-moved d.files p.target p.backup_old old differ ∙ (sym e ∙ same) in
                let at_tmp : lookup p.tmp_file f ≡ some a.text =
                  lookup-moved_other d.files p.target p.backup_old old differ p.tmp_file
                    (neq_sym p.tmp_file p.backup_old tmp_old) target_tmp
                  ∙ new in
                subst Goal (sym r) (
                  lookup-moved_from d.files p.target p.backup_old old differ,
                  at_old,
                  at_tmp,
                  (inr (inr (at_old, at_tmp)), safe),
                )
          ]
        ]
      ]

  -- The second rename replaces the file, or leaves the disk as it is.
  pub renamed_over :
      (fs : Files)
      → lookup p.tmp_file fs ≡ some a.text
      → (works : Bool)
      → (f : Files) × (rename fs p.tmp_file p.target works ≡ (f, works))
        × (works ≡ true → lookup p.target f ≡ some a.text)
        × (works ≡ false → f ≡ fs)
  renamed_over fs new true =
      let (target_tmp, _, _) = distinct in
      (
        insert p.target a.text (erase p.tmp_file fs),
        rename_works fs p.tmp_file p.target a.text new,
        λ h. lookup-moved fs p.tmp_file p.target a.text target_tmp,
        λ h. cc,
      )
  renamed_over fs new false = (fs, rename_refused fs p.tmp_file p.target, λ h. cc, λ h. refl)

  pub lookup-remove :
      (fs : Files) (works : Bool)
      → lookup p.target (remove fs p.backup_old works) ≡ lookup p.target fs
  lookup-remove fs works =
      let (_, target_old, _) = distinct in
      lookup-removed fs p.backup_old p.target works (neq_sym p.target p.backup_old target_old)

  -- The file that was set aside is put back, or stays there.
  pub restored :
      (fs : Files) (works : Bool)
      → lookup p.backup_old fs ≡ before
      → lookup p.target fs ≡ none
      → lookup p.tmp_file fs ≡ some a.text
      → let f = (rename fs p.backup_old p.target works).0 in
        ((lookup p.target f ≡ before) ⊎ (lookup p.backup_old f ≡ before))
        × (lookup p.tmp_file f ≡ some a.text)
  unfolding rename
  restored fs works old gone new =
      let (target_tmp, target_old, tmp_old) = distinct in
      elim (Option-cases (lookup p.backup_old fs)) [
        | inl e ↦ rw (e, rename) (inr old, new)
        | inr (text, e) ↦ elim (Bool-cases works) [
          | inr bad ↦ rw (e, rename) (rw bad (inr old, new))
          | inl good ↦
              rw (e, rename)
                (rw good (
                  inl (lookup-moved fs p.backup_old p.target text target_old ∙ (sym e ∙ old)),
                  lookup-moved_other fs p.backup_old p.target text target_old p.tmp_file target_tmp
                        (neq_sym p.tmp_file p.backup_old tmp_old)
                      ∙ new,
                ))
        ]
      ]
