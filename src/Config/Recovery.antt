-- ===== src/Config/Recovery.antt =====
-- pkg/config/resilience.go: `BackupCorruptConfigFile`, with the queue of its events, and
-- `ensureConfigFile` of settings.go.
pub mod Kept
use eqrcp.Base.{
  ◌≡◌, refl, ◌∙◌, sym, ◌⊎◌, inl, inr, String, Bool, true, false, not, List, [], ◌∷◌, ◌++◌, Option,
  none, some, Option-cases, Bool-cases, arith, eq_iff, ◌=ₛ◌, if◌then◌else◌,
}
use eqrcp.Base.Clock.{Time}
use eqrcp.Base.Bytes.{Bytes}
use eqrcp.Base.Assoc.{lookup, insert}
use eqrcp.Config.Files.{Files, Written, whole, untouched, cut, write_file, rename}

pub record SelfHealEvent : Type 0 where
  pub timestamp : Time
  pub config_path : String
  pub backup_path : String
  pub reason : String

-- The disk, and the queue of events.
pub record World : Type 0 where
  pub files : Files
  pub self_heal_events : List SelfHealEvent

unfoldable pub record_self_heal_event : World → SelfHealEvent → World
record_self_heal_event w event = record w { self_heal_events = w.self_heal_events ++ event ∷ [] }

unfoldable pub consume_self_heal_events : World → World × List SelfHealEvent
consume_self_heal_events w = (record w { self_heal_events = [] }, w.self_heal_events)

unfoldable pub has_pending_self_heal_events : World → Bool
has_pending_self_heal_events w = elim w.self_heal_events [ [] ↦ false | (e ∷ es) ↦ true ]

-- What a call meets: the time, the backup's path made of it, and how its system calls end.
pub record Moment : Type 0 where
  pub now : Time
  pub backup_path : String
  pub stat_works : Bool
  pub rename_works : Bool
  pub create_works : Bool
  pub read_works : Bool
  pub backup_written : Written
  pub reset_written : Written

-- The pair of a path and an error that Go returns.
pub data Backup : Type 0 where
  nothing : Backup
  backed_up : String → Backup
  unreadable no_backup no_reset : Backup

unfoldable pub ensure_config_file : Files → String → (create_works : Bool) → Files
ensure_config_file fs path create_works = elim (lookup path fs) [
  | none ↦ if create_works then insert path [] fs else fs
  | some text ↦ fs
]

abbrev pub healed : String → Moment → SelfHealEvent
healed config_path t = record {
  timestamp = t.now;
  config_path = config_path;
  backup_path = t.backup_path;
  reason = "parse_error";
}

-- The copy that is made where the file cannot be moved.
unfoldable pub copy_away : World → String → Bytes → Moment → World × Backup
copy_away w config_path text t =
    let (copied, saved) = write_file w.files t.backup_path text t.backup_written in
    let (emptied, reset) = write_file copied config_path [] t.reset_written in
    if not t.read_works
    then (w, unreadable)
    else if not saved
    then (record w { files = copied }, no_backup)
    else if not reset
    then (record w { files = emptied }, no_reset)
    else (
      record_self_heal_event (record w { files = emptied }) (healed config_path t),
      backed_up t.backup_path,
    )

-- The call, for a file of this content.
unfoldable pub back_up : World → String → Bytes → Moment → World × Backup
back_up w config_path [] t = (w, nothing)
back_up w config_path (b ∷ bs) t =
    let (moved, renamed) = rename w.files config_path t.backup_path t.rename_works in
    let kept = ensure_config_file moved config_path t.create_works in
    if renamed
    then (
      record_self_heal_event (record w { files = kept }) (healed config_path t),
      backed_up t.backup_path,
    )
    else copy_away w config_path (b ∷ bs) t

unfoldable pub backup_corrupt_config_file : World → String → Moment → World × Backup
backup_corrupt_config_file w config_path t =
    elim (if t.stat_works then lookup config_path w.files else none) [
      | none ↦ (w, nothing)
      | some text ↦ back_up w config_path text t
    ]
