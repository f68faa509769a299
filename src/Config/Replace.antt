-- ===== src/Config/Replace.antt =====
-- pkg/config/resilience.go: `AtomicWriteConfigFile`. `past` is the disk as it was after each system
-- call, the last first: what a kill of the process leaves.
pub mod Steps
pub mod Safe
use eqrcp.Base.{
  String, Bool, true, false, not, List, [], ◌∷◌, Option, none, some, ◌&&◌, if◌then◌else◌,
}
use eqrcp.Base.Bytes.{Bytes}
use eqrcp.Base.Assoc.{lookup}
use eqrcp.Config.Files.{Files, Written, write_file, rename, remove}

pub record Disk : Type 0 where
  pub files : Files
  pub past : List Files

abbrev pub become : Disk → Files → Disk
become d files = record { files = files; past = files ∷ d.past }

-- `tmpFile` and `backupOld` are made of the target's path and the time.
pub record Paths : Type 0 where
  pub target : String
  pub tmp_file : String
  pub backup_old : String

-- How the system calls end, and the text that viper makes of the configuration. Viper leaves a file
-- that it could not write in full as `tmp_written` says.
pub record Attempt : Type 0 where
  pub text : Bytes
  pub mkdir_works : Bool
  pub tmp_written : Written
  pub rename_works : Bool
  pub stat_works : Bool
  pub set_aside_works : Bool
  pub retry_works : Bool
  pub restore_works : Bool
  pub remove_works : Bool

-- A return without an error, and the three with one.
pub data Replaced : Type 0 where
  replaced no_directory not_written not_renamed : Replaced

abbrev exists : Option Bytes → Bool
exists none = false
exists (some text) = true

module _ (p : Paths) (a : Attempt) where
  -- The existing file is moved to `backupOld`; the flag is `hasOld`.
  unfoldable pub set_aside : Disk → Disk × Bool
  set_aside d =
      let (files, moved) = rename d.files p.target p.backup_old a.set_aside_works in
      if a.stat_works && exists (lookup p.target d.files)
      then (become d files, moved)
      else (d, false)

  -- The second rename, and what follows it.
  unfoldable pub retry : Disk → (has_old : Bool) → Disk × Replaced
  retry d has_old =
      let (files, moved) = rename d.files p.tmp_file p.target a.retry_works in
      let d' = become d files in
      let restored = become d' (rename files p.backup_old p.target a.restore_works).0 in
      let cleaned = become d' (remove files p.backup_old a.remove_works) in
      if moved
      then (if has_old then cleaned else d', replaced)
      else (if has_old then restored else d', not_renamed)

  unfoldable pub replace : Disk → Disk × Replaced
  replace d =
      let (files, moved) = rename d.files p.tmp_file p.target a.rename_works in
      let (d', has_old) = set_aside (become d files) in
      if moved then (become d files, replaced) else retry d' has_old

  unfoldable pub atomic_write_config_file : Disk → Disk × Replaced
  atomic_write_config_file d =
      let (files, saved) = write_file d.files p.tmp_file a.text a.tmp_written in
      let d' = become d files in
      if not a.mkdir_works
      then (d, no_directory)
      else if saved
      then replace d'
      else (become d' (remove files p.tmp_file a.remove_works), not_written)
