-- ===== src/Config/Replace/Safe.antt =====
-- What `AtomicWriteConfigFile` leaves at every moment.
use eqrcp.Base.{
  ◌≡◌, refl, ap, ◌∙◌, sym, subst, inl, inr, Bool, true, false, [], Option, some, Bool-cases, arith,
  All,
}
use eqrcp.Base.Bytes.{Bytes}
use eqrcp.Base.Assoc.{lookup}
use eqrcp.Config.Files.{Files, write_file, write_file-other, write_file-whole, remove, neq_sym}
use eqrcp.Config.Replace.{
  Disk, become, Paths, Attempt, Replaced, no_directory, not_written, set_aside, retry, replace,
  atomic_write_config_file,
}
use eqrcp.Config.Replace.Steps.{
  AreDistinct, IsSafe, AllSafe, Aside, set_aside-Aside, renamed_over, restored, lookup-remove,
  lookup-removed,
}

module _ (p : Paths) (a : Attempt) (before : Option Bytes) (distinct : AreDistinct p) where
  abbrev Goal : Disk × Replaced → Type 0
  Goal = AllSafe p a.text before

  retry-AllSafe :
      (d : Disk) (has_old : Bool) → Aside p a.text before (d, has_old) → Goal (retry p a d has_old)
  unfolding retry
  retry-AllSafe d true (gone, old, new, safe) =
      let (f, e, over, kept) = renamed_over p a before distinct d.files new a.retry_works in
      elim (Bool-cases a.retry_works) [
        | inl works ↦
            let now = over works in
            let later = lookup-remove p a before distinct f a.remove_works ∙ now in
            let r = e ∙ ap (λ (b : Bool). (f, b)) works in
            rw (r, retry) (later, (inr (inl later), (inr (inl now), safe)))
        | inr bad ↦
            let r = e ∙ (λ i. (kept bad i, bad i)) in
            let (where_old, still_new) =
              restored p a before distinct d.files a.restore_works old gone new in
            rw (r, retry)
              (
                (where_old, still_new),
                (
                  elim where_old [ inl back ↦ inl back | inr aside ↦ inr (inr (aside, still_new)) ],
                  (inr (inr (old, new)), safe),
                ),
              )
      ]
  retry-AllSafe d false (same, new, safe) =
      let (f, e, over, kept) = renamed_over p a before distinct d.files new a.retry_works in
      elim (Bool-cases a.retry_works) [
        | inl works ↦
            let r = e ∙ ap (λ (b : Bool). (f, b)) works in
            rw (r, retry) (over works, (inr (inl (over works)), safe))
        | inr bad ↦
            let r = e ∙ (λ i. (kept bad i, bad i)) in
            rw (r, retry) ((inl same, new), (inl same, safe))
      ]

  replace-AllSafe :
      (d : Disk)
      → lookup p.target d.files ≡ before
      → lookup p.tmp_file d.files ≡ some a.text
      → All (IsSafe p a.text before) d.past
      → Goal (replace p a d)
  unfolding replace
  replace-AllSafe d same new safe =
      let (f, e, over, kept) = renamed_over p a before distinct d.files new a.rename_works in
      elim (Bool-cases a.rename_works) [
        | inl works ↦
            let r = e ∙ ap (λ (b : Bool). (f, b)) works in
            rw (r, replace) (over works, (inr (inl (over works)), safe))
        | inr bad ↦
            let r = e ∙ (λ i. (kept bad i, bad i)) in
            rw (r, replace)
              (retry-AllSafe (set_aside p a (become d d.files)).0
                (set_aside p a (become d d.files)).1
                (set_aside-Aside p a before distinct (become d d.files) same new (inl same, safe)))
      ]

-- The configuration is never lost or cut short: after every system call, so also when the process is
-- killed there, the file is as it was or holds the new text in full, or the old content is set aside
-- whole and the new text stands in the temporary file. A return without an error means that the new
-- text is in place; after an error the old content is in place or set aside, and once the text was
-- written in full it stands in the temporary file.
pub atomic_write_config_file-AllSafe :
    (p : Paths) (a : Attempt) (fs : Files)
    → AreDistinct p
    → AllSafe p a.text
        (lookup p.target fs)
        (atomic_write_config_file p a (record { files = fs; past = [] }))
unfolding atomic_write_config_file
atomic_write_config_file-AllSafe p a fs distinct =
    let (target_tmp, target_old, tmp_old) = distinct in
    let before = lookup p.target fs in
    let d : Disk = record { files = fs; past = [] } in
    let f = (write_file fs p.tmp_file a.text a.tmp_written).0 in
    let differ = neq_sym p.target p.tmp_file target_tmp in
    let same : lookup p.target f ≡ before =
      write_file-other fs p.tmp_file p.target a.text a.tmp_written differ in
    let result = atomic_write_config_file p a d in
    let Safe = AllSafe p a.text before in
    elim (Bool-cases a.mkdir_works) [
      | inr bad ↦ let r : result ≡ (d, no_directory) = rw bad refl in subst Safe (sym r) (refl, tt)
      | inl good ↦ elim (Bool-cases (write_file fs p.tmp_file a.text a.tmp_written).1) [
        | inr unsaved ↦
            let rest = remove f p.tmp_file a.remove_works in
            let r : result ≡ (become (become d f) rest, not_written) = ground arith in
            let at_end : lookup p.target rest ≡ before =
              lookup-removed f p.tmp_file p.target a.remove_works differ ∙ same in
            subst Safe (sym r) (at_end, (inl at_end, (inl same, tt)))
        | inl saved ↦
            let r : result ≡ replace p a (become d f) = ground arith in
            let new = write_file-whole fs p.tmp_file a.text a.tmp_written saved in
            subst Safe (sym r)
              (replace-AllSafe p a before distinct (become d f) same new (inl same, tt))
      ]
    ]
