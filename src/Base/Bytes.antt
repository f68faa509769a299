-- ===== src/Base/Bytes.antt =====
-- Go strings as the lists of their bytes.
use eqrcp.Base.Tests.{◌==◌, if◌then◌else◌}
use Prim.Native.Nat.{ℕ}
use mathlib.Core.Path.{◌≡◌, refl}
use mathlib.Core.Bool.{Bool, true, false, ◌&&◌}
use mathlib.Core.List.{List, [], ◌∷◌}
use native.Mathlib.Omega.{arith}

abbrev pub Bytes : Type 0
Bytes = List ℕ

unfoldable pub bytes_eq : Bytes → Bytes → Bool
bytes_eq [] [] = true
bytes_eq (b ∷ bs) (c ∷ cs) = b == c && bytes_eq bs cs
bytes_eq [] (c ∷ cs) = false
bytes_eq (b ∷ bs) [] = false

pub bytes_eq-eq : (bs cs : Bytes) → bytes_eq bs cs ≡ true → bs ≡ cs
unfolding bytes_eq
bytes_eq-eq [] [] e = refl
bytes_eq-eq (b ∷ bs) (c ∷ cs) e = ground (arith, bytes_eq-eq bs cs)
bytes_eq-eq [] (c ∷ cs) e = cc
bytes_eq-eq (b ∷ bs) [] e = cc

abbrev prepend : ℕ → List Bytes → List Bytes
prepend b [] = (b ∷ []) ∷ []
prepend b (part ∷ parts) = (b ∷ part) ∷ parts

-- `strings.Split(v, ".")`.
unfoldable pub split_dots : Bytes → List Bytes
split_dots [] = [] ∷ []
split_dots (b ∷ bs) = let parts = split_dots bs in if b == b'.' then [] ∷ parts else prepend b parts
