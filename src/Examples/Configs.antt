-- ===== src/Examples/Configs.antt =====
-- pkg/config/resilience.go at concrete inputs.
use eqrcp.Base.{refl, true, false, [], ◌∷◌}
use eqrcp.Base.Assoc.{lookup}
use eqrcp.Config.Files.{whole, cut}
use eqrcp.Config.Recovery.{World, Moment, backup_corrupt_config_file}
use eqrcp.Config.Recovery.Kept.{IsKept, backup_corrupt_config_file-IsKept}
use eqrcp.Config.Replace.{Paths, Attempt, atomic_write_config_file}
use eqrcp.Config.Replace.Steps.{AllSafe}
use eqrcp.Config.Replace.Safe.{atomic_write_config_file-AllSafe}

abbrev broken : World
broken = record { files = ("config.yml", b'{' ∷ []) ∷ []; self_heal_events = [] }

-- The move is refused, the copy is written and the original cannot be emptied in full.
abbrev refused : Moment
refused = record {
  now = 7;
  backup_path = "config.yml.corrupted.7";
  stat_works = true;
  rename_works = false;
  create_works = true;
  read_works = true;
  backup_written = whole;
  reset_written = cut [];
}

backup_corrupt_config_file-IsKept_example :
    IsKept broken "config.yml" refused
      (b'{' ∷ [])
      (backup_corrupt_config_file broken "config.yml" refused)
backup_corrupt_config_file-IsKept_example =
    backup_corrupt_config_file-IsKept broken "config.yml" refused refl (b'{' ∷ [])
      (unfold lookup in refl)

abbrev paths : Paths
paths = record {
  target = "config.yml";
  tmp_file = ".tmp-7-config.yml";
  backup_old = "config.yml.old-7";
}

-- Both renames of the new file are refused, and the old one cannot be put back.
abbrev locked : Attempt
locked = record {
  text = b'p' ∷ [];
  mkdir_works = true;
  tmp_written = whole;
  rename_works = false;
  stat_works = true;
  set_aside_works = true;
  retry_works = false;
  restore_works = false;
  remove_works = true;
}

atomic_write_config_file-AllSafe_example :
    AllSafe paths (b'p' ∷ []) (lookup "config.yml" (("config.yml", b'q' ∷ []) ∷ [])) (
      atomic_write_config_file paths locked
        (record { files = ("config.yml", b'q' ∷ []) ∷ []; past = [] }))
atomic_write_config_file-AllSafe_example =
    atomic_write_config_file-AllSafe paths locked (("config.yml", b'q' ∷ []) ∷ [])
      (refl, refl, refl)
