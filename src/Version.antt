-- ===== src/Version.antt =====
-- pkg/version/version.go: the comparison of versions. A Go string is the list of its bytes.
pub mod Order
use eqrcp.Base.{
  ℕ, zero, suc, ◌≡◌, Bool, true, false, not, ◌&&◌, ◌||◌, List, [], ◌∷◌, ◌++◌, ltb, leb, ◌==◌,
  if◌then◌else◌,
}
use eqrcp.Base.Bytes.{Bytes, bytes_eq, split_dots}
use eqrcp.Base.Int.{ℤ, pos, ltb_ℤ}

-- `strings.TrimSpace`, and the number that `fmt.Sscanf(p, "%d", &val)` leaves in `val`, which is 0
-- where the text does not begin with one.
pub record TextLibrary : Type 0 where
  pub trim_space : Bytes → Bytes
  pub scan_int : Bytes → ℤ

-- Go's `<` on strings.
unfoldable pub bytes_less : Bytes → Bytes → Bool
bytes_less bs [] = false
bytes_less [] (c ∷ cs) = true
bytes_less (b ∷ bs) (c ∷ cs) = ltb b c || (b == c && bytes_less bs cs)

-- `strings.TrimPrefix` for a prefix of one byte.
abbrev trim_byte : ℕ → Bytes → Bytes
trim_byte p [] = []
trim_byte p (b ∷ bs) = if b == p then bs else b ∷ bs

abbrev pub dev : Bytes
dev = b'd' ∷ b'e' ∷ b'v' ∷ []

-- The text before the first dash, and that after it.
unfoldable pub split_pre_release : Bytes → Bytes × Bytes
split_pre_release [] = ([], [])
split_pre_release (b ∷ bs) =
    let (main, pre) = split_pre_release bs in if b == b'-' then ([], bs) else (b ∷ main, pre)

abbrev map_parts : (Bytes → ℤ) → List Bytes → List ℤ
map_parts f [] = []
map_parts f (part ∷ parts) = f part ∷ map_parts f parts

-- The value at a place, 0 beyond the end.
abbrev pub part_at : List ℤ → ℕ → ℤ
part_at [] i = pos 0
part_at (n ∷ ns) zero = n
part_at (n ∷ ns) (suc i) = part_at ns i

abbrev pub is_empty : Bytes → Bool
is_empty [] = true
is_empty (b ∷ bs) = false

-- A loop over the three numbers that has not returned by `i` goes on with `i + 1`.
unfoldable pub newer_from : (rounds i : ℕ) → List ℤ → List ℤ → Bool → Bool
newer_from zero i curr targ undecided = undecided
newer_from (suc rounds) i curr targ undecided =
    let rest = newer_from rounds (suc i) curr targ undecided in
    if ltb_ℤ (part_at curr i) (part_at targ i)
    then true
    else if ltb_ℤ (part_at targ i) (part_at curr i)
    then false
    else rest

module _ (x : TextLibrary) where
  open x use {trim_space, scan_int}

  unfoldable pub normalize_version : Bytes → Bytes
  normalize_version v = trim_byte b'V' (trim_byte b'v' (trim_space v))

  unfoldable pub parse_version_parts : Bytes → List ℤ
  parse_version_parts v = map_parts scan_int (split_dots v)

  unfoldable pub newer_pre : Bytes → Bytes → Bool
  newer_pre curr_pre targ_pre =
      if is_empty curr_pre && not (is_empty targ_pre)
      then false
      else if not (is_empty curr_pre) && is_empty targ_pre
      then true
      else if not (is_empty curr_pre) && not (is_empty targ_pre)
      then bytes_less curr_pre targ_pre
      else false

  unfoldable pub is_newer_version : (current target : Bytes) → Bool
  is_newer_version current target =
      let c_norm = normalize_version current in
      let t_norm = normalize_version target in
      let (curr_main, curr_pre) = split_pre_release c_norm in
      let (targ_main, targ_pre) = split_pre_release t_norm in
      if bytes_eq c_norm t_norm
      then false
      else if bytes_eq c_norm dev
      then not (bytes_eq t_norm dev)
      else if bytes_eq t_norm dev
      then false
      else newer_from 3 0 (parse_version_parts curr_main) (parse_version_parts targ_main)
          (newer_pre curr_pre targ_pre)
