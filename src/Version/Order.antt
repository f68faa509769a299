-- ===== src/Version/Order.antt =====
-- `IsNewerVersion` is a strict order.
use eqrcp.Base.{
  ◌≡◌, refl, ap, ◌∙◌, sym, inl, inr, Bool-cases, Bool, true, false, not, ◌&&◌, ◌||◌, List, [], ◌∷◌,
  arith, if◌then◌else◌,
}
use eqrcp.Base.Int.{ℤ, ltb_ℤ}
use eqrcp.Base.Bytes.{Bytes, bytes_eq, bytes_eq-eq}
use eqrcp.Version.{
  TextLibrary, bytes_less, dev, part_at, is_empty, newer_from, newer_pre, split_pre_release,
  parse_version_parts, normalize_version, is_newer_version,
}

bytes_less_irrefl : (bs : Bytes) → bytes_less bs bs ≡ false
unfolding bytes_less
bytes_less_irrefl [] = refl
bytes_less_irrefl (b ∷ bs) = ground (arith, bytes_less_irrefl bs)

bytes_less_trans :
    (bs cs ds : Bytes) → bytes_less bs cs ≡ true → bytes_less cs ds ≡ true → bytes_less bs ds ≡ true
unfolding bytes_less
bytes_less_trans bs cs [] h k = cc
bytes_less_trans bs [] (d ∷ ds) h k = cc
bytes_less_trans [] (c ∷ cs) (d ∷ ds) h k = refl
bytes_less_trans (b ∷ bs) (c ∷ cs) (d ∷ ds) h k = ground (arith, bytes_less_trans bs cs ds)

-- What the comparison reads of a version.
pub record Key : Type 0 where
  pub is_dev : Bool
  pub major : ℤ
  pub minor : ℤ
  pub patch : ℤ
  pub pre : Bytes

abbrev less_pre : Bytes → Bytes → Bool
less_pre bs [] = not (is_empty bs)
less_pre [] (c ∷ cs) = false
less_pre (b ∷ bs) (c ∷ cs) = bytes_less (b ∷ bs) (c ∷ cs)

-- A comparison of two numbers, and what decides where they are equal.
unfoldable pub by_number : ℤ → ℤ → Bool → Bool
by_number m n rest = ltb_ℤ m n || (not (ltb_ℤ n m) && rest)

by_number_irrefl : (n : ℤ) (rest : Bool) → rest ≡ false → by_number n n rest ≡ false
unfolding by_number
by_number_irrefl n rest e = ground arith

by_number_trans :
    (l m n : ℤ) (r s t : Bool)
    → (r ≡ true → s ≡ true → t ≡ true)
    → by_number l m r ≡ true
    → by_number m n s ≡ true
    → by_number l n t ≡ true
unfolding by_number
by_number_trans l m n r s t h e f = ground (arith, h)

-- The order of the keys: a development version comes first, then the numbers count, from the left,
-- and a release comes after its pre-releases, which are in the order of their texts.
abbrev pub less : Key → Key → Bool
less k l =
    if k.is_dev
    then not l.is_dev
    else not l.is_dev
      && by_number k.major l.major
          (by_number k.minor l.minor (by_number k.patch l.patch (less_pre k.pre l.pre)))

less_pre_irrefl : (bs : Bytes) → less_pre bs bs ≡ false
less_pre_irrefl [] = refl
less_pre_irrefl (b ∷ bs) = bytes_less_irrefl (b ∷ bs)

less_pre_trans :
    (bs cs ds : Bytes) → less_pre bs cs ≡ true → less_pre cs ds ≡ true → less_pre bs ds ≡ true
less_pre_trans [] [] ds h k = cc
less_pre_trans [] (c ∷ cs) ds h k = cc
less_pre_trans (b ∷ bs) [] [] h k = cc
less_pre_trans (b ∷ bs) [] (d ∷ ds) h k = cc
less_pre_trans (b ∷ bs) (c ∷ cs) [] h k = refl
less_pre_trans (b ∷ bs) (c ∷ cs) (d ∷ ds) h k = bytes_less_trans (b ∷ bs) (c ∷ cs) (d ∷ ds) h k

less_irrefl : (k : Key) → less k k ≡ false
less_irrefl k = ground (
  arith,
  by_number_irrefl k.major _
      (by_number_irrefl k.minor _ (by_number_irrefl k.patch _ (less_pre_irrefl k.pre))),
)

less_trans : (k l m : Key) → less k l ≡ true → less l m ≡ true → less k m ≡ true
less_trans k l m h i = ground (
  arith,
  by_number_trans k.major l.major m.major _ _ _ (
      by_number_trans k.minor l.minor m.minor _ _ _
        (by_number_trans k.patch l.patch m.patch _ _ _ (less_pre_trans k.pre l.pre m.pre))),
)

newer_from-by_number :
    (curr targ : List ℤ) (rest : Bool)
    → newer_from 3 0 curr targ rest
      ≡ by_number (part_at curr 0) (part_at targ 0) (
          by_number
            (part_at curr 1)
            (part_at targ 1)
            (by_number (part_at curr 2) (part_at targ 2) rest))
unfolding newer_from by_number
newer_from-by_number curr targ rest = ground arith

module _ (x : TextLibrary) where
  abbrev pub key : Bytes → Key
  key v =
      let norm = normalize_version x v in
      let (main, pre) = split_pre_release norm in
      let parts = parse_version_parts x main in
      record {
        is_dev = bytes_eq norm dev;
        major = part_at parts 0;
        minor = part_at parts 1;
        patch = part_at parts 2;
        pre = pre;
      }

  newer_pre_lem : (bs cs : Bytes) → newer_pre x bs cs ≡ less_pre bs cs
  unfolding newer_pre
  newer_pre_lem [] [] = refl
  newer_pre_lem [] (c ∷ cs) = refl
  newer_pre_lem (b ∷ bs) [] = refl
  newer_pre_lem (b ∷ bs) (c ∷ cs) = refl

  same_key :
      (current target : Bytes)
      → normalize_version x current ≡ normalize_version x target
      → key current ≡ key target
  same_key current target e =
      ap
        (λ norm.
          let (main, pre) = split_pre_release norm in
          let parts = parse_version_parts x main in
          let k : Key = record {
            is_dev = bytes_eq norm dev;
            major = part_at parts 0;
            minor = part_at parts 1;
            patch = part_at parts 2;
            pre = pre;
          } in
          k)
        e

  is_newer_version-less :
      (current target : Bytes) → is_newer_version x current target ≡ less (key current) (key target)
  unfolding is_newer_version
  is_newer_version-less current target =
      let c = normalize_version x current in
      let t = normalize_version x target in
      elim (Bool-cases (bytes_eq c t)) [
        | inl same ↦ rw same (
            sym (
              ap (less (key current)) (sym (same_key current target (bytes_eq-eq c t same)))
              ∙ less_irrefl (key current)))
        | inr differ ↦ rw differ (
            ground (
              arith,
              newer_pre_lem (split_pre_release c).1 (split_pre_release t).1,
              newer_from-by_number (parse_version_parts x (split_pre_release c).0)
                  (parse_version_parts x (split_pre_release t).0)
                  (newer_pre x (split_pre_release c).1 (split_pre_release t).1),
            ))
      ]

  -- `IsNewerVersion` decides the order of the versions by their keys, and so is a strict order: no
  -- version is newer than itself, of two versions at most one is newer, and what is newer than a
  -- newer version is newer. An update can so never lead round in a circle.
  pub is_newer_version_order :
      (u v w : Bytes)
      → (is_newer_version x u v ≡ less (key u) (key v))
        × (is_newer_version x u u ≡ false)
        × (is_newer_version x u v ≡ true → is_newer_version x v u ≡ false)
        × (is_newer_version x u v ≡ true
            → is_newer_version x v w ≡ true
            → is_newer_version x u w ≡ true)
  is_newer_version_order u v w =
      let by_key = is_newer_version-less in
      let trans =
        λ (p q r : Bytes) (h : is_newer_version x p q ≡ true) (k : is_newer_version x q r ≡ true).
          by_key p r
          ∙ less_trans (key p) (key q) (key r) (sym (by_key p q) ∙ h) (sym (by_key q r) ∙ k) in
      let irrefl = λ (p : Bytes). by_key p p ∙ less_irrefl (key p) in
      (
        by_key u v,
        irrefl u,
        λ h. elim (Bool-cases (is_newer_version x v u)) [
          | inl back ↦ let round = sym (irrefl u) ∙ trans u v u h back in cc
          | inr no_back ↦ no_back
        ],
        λ h k. trans u v w h k,
      )
