-- ===== src/Base/Assoc.antt =====
-- Go's `map[string]V` as an association list: the list is one order in which `range` may visit it.
use mathlib.Core.Path.{subst}
use mathlib.Core.Logic.{inl, inr}
use eqrcp.Base.Tests.{Bool-cases, ◌=ₛ◌, if◌then◌else◌}
use eqrcp.Base.Lists.{All}
use Prim.Native.String.{String}
use mathlib.Core.Path.{◌≡◌}
use mathlib.Core.Option.{Option, none, some}
use mathlib.Core.List.{List, [], ◌∷◌}
use native.Mathlib.Omega.{arith}
use text.Mathlib.TextEquality.{eq_iff}

module _ {ℓ} {V : Type ℓ} where
  unfoldable pub lookup : String → List (String × V) → Option V
  lookup key [] = none
  lookup key ((name, v) ∷ rest) = if key =ₛ name then some v else lookup key rest

  -- `m[key] = new`.
  unfoldable pub insert : String → V → List (String × V) → List (String × V)
  insert key new [] = (key, new) ∷ []
  insert key new ((name, v) ∷ rest) =
      let others = insert key new rest in
      if key =ₛ name then (name, new) ∷ rest else (name, v) ∷ others

  -- `delete(m, key)`.
  unfoldable pub erase : String → List (String × V) → List (String × V)
  erase key [] = []
  erase key ((name, v) ∷ rest) =
      let others = erase key rest in if key =ₛ name then others else (name, v) ∷ others

  abbrev pub values : List (String × V) → List V
  values [] = []
  values ((_, v) ∷ rest) = v ∷ values rest

  pub lookup-insert :
      (key other : String) (new : V) (m : List (String × V))
      → lookup other (insert key new m) ≡ (if key =ₛ other then some new else lookup other m)
  unfolding insert lookup
  lookup-insert key other new [] = ground (arith, eq_iff other key, eq_iff key other)
  lookup-insert key other new ((name, v) ∷ rest) =
      let ih = lookup-insert key other new rest in
      let same = eq_iff key other in ground (arith, ih, same, eq_iff other name, eq_iff key name)

  pub lookup-erase :
      (key other : String) (m : List (String × V))
      → lookup other (erase key m) ≡ (if key =ₛ other then none else lookup other m)
  unfolding erase lookup
  lookup-erase key other [] = ground arith
  lookup-erase key other ((name, v) ∷ rest) =
      let ih = lookup-erase key other rest in
      let same = eq_iff key other in ground (arith, ih, same, eq_iff other name, eq_iff key name)

  -- What holds of every entry of a map.
  abbrev pub Every {κ} : (V → Type κ) → List (String × V) → Type κ
  Every P m = All (λ e. P e.1) m

  pub Every-lookup {κ} :
      (P : V → Type κ) (k : String) (m : List (String × V)) (v : V)
      → Every P m
      → lookup k m ≡ some v
      → P v
  unfolding lookup
  Every-lookup P k [] v h e = cc
  Every-lookup P k ((j, w) ∷ m) v h e = elim (Bool-cases (k =ₛ j)) [
    | inl same ↦ let found : w ≡ v = ground arith in subst P found h.0
    | inr other ↦ Every-lookup P k m v h.1 (ground arith)
  ]

  pub Every-insert {κ} :
      (P : V → Type κ) (k : String) (v : V) (m : List (String × V))
      → P v
      → Every P m
      → Every P (insert k v m)
  unfolding insert
  Every-insert P k v [] p h = (p, tt)
  Every-insert P k v ((j, w) ∷ m) p h = ground (arith, Every-insert P k v m p h.1)

  pub Every-erase {κ} :
      (P : V → Type κ) (k : String) (m : List (String × V)) → Every P m → Every P (erase k m)
  unfolding erase
  Every-erase P k [] h = tt
  Every-erase P k ((j, w) ∷ m) h = ground (arith, Every-erase P k m h.1)
