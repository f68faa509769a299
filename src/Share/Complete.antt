-- ===== src/Share/Complete.antt =====
-- pkg/server/server.go: the three accounts of a client's progress agree: whether it is finished, its items
-- and its bytes.
use eqrcp.Base.{
  ℕ, suc, ◌≤◌, ◌≡◌, ◌↔◌, ◌⊎◌, inl, inr, refl, sym, ap, subst, ◌∙◌, String, Bool-cases, true, false,
  List, [], ◌∷◌, Option, none, some, arith, leb→le, le→leb, ◌==◌, length, if◌then◌else◌,
}
use eqrcp.Base.Int.{ℤ, pos, negsuc, ltb_ℤ, leb_ℤ}
use eqrcp.Base.Int64.{add64}
use eqrcp.Base.Assoc.{lookup}
use eqrcp.Share.{Server, IntMap, entry_of, path_list}
use eqrcp.Share.Progress.{
  item_size, item_done, count_done, done_items, sum_items, zip_done, zip_begun, indices,
  finished_with, items_with, bytes_with, is_client_finished, get_client_downloaded_items,
  get_client_downloaded_and_total,
}

at_most_eq : (a b : ℤ) → leb_ℤ a b ≡ true → (if ltb_ℤ a b then a else b) ≡ a
at_most_eq (pos a) (pos b) h = ground arith
at_most_eq (pos a) (negsuc b) h = ground arith
at_most_eq (negsuc a) (pos b) h = ground arith
at_most_eq (negsuc a) (negsuc b) h = ground arith

module _ (stat : String → Option ℤ) where
  count_done-le :
      (s : Server) (p : IntMap ℤ) (i : ℕ) (ps : List String) → count_done stat s p i ps ≤ length ps
  unfolding count_done
  count_done-le s p i [] = ground arith
  count_done-le s p i (path ∷ ps) = ground (arith, count_done-le s p (suc i) ps)

  length-done_items :
      (s : Server) (p : IntMap ℤ) (i : ℕ) (ps : List String)
      → length (done_items stat s p i ps) ≡ count_done stat s p i ps
  unfolding count_done done_items
  length-done_items s p i [] = refl
  length-done_items s p i (path ∷ ps) = ground (arith, length-done_items s p (suc i) ps)

  length-indices : (i : ℕ) (ps : List String) → length (indices i ps) ≡ length ps
  unfolding indices
  length-indices i [] = refl
  length-indices i (path ∷ ps) = ground (arith, length-indices (suc i) ps)

  count_done-all :
      (s : Server) (p : IntMap ℤ) (i : ℕ) (ps : List String)
      → length ps ≤ count_done stat s p i ps
      → done_items stat s p i ps ≡ indices i ps
  unfolding count_done done_items indices
  count_done-all s p i [] h = refl
  count_done-all s p i (path ∷ ps) h =
      let le = count_done-le s p (suc i) ps in ground (arith, count_done-all s p (suc i) ps)

  item_done-counted :
      (s : Server) (p : IntMap ℤ) (i : ℕ) (path : String)
      → item_done stat s p i path ≡ true
      → (if ltb_ℤ (item_size stat s i path) (entry_of (pos i) p)
          then item_size stat s i path
          else entry_of (pos i) p)
        ≡ item_size stat s i path
  unfolding item_done
  item_done-counted s p i path h =
      at_most_eq (item_size stat s i path) (entry_of (pos i) p) (ground arith)

  -- For a client with all items, the bytes that count are the sizes.
  sum_items-all :
      (s : Server) (p : IntMap ℤ) (i : ℕ) (ps : List String) (sum : ℤ)
      → length ps ≤ count_done stat s p i ps
      → (sum_items stat s p i ps sum sum).0 ≡ (sum_items stat s p i ps sum sum).1
  unfolding count_done sum_items
  sum_items-all s p i [] sum h = refl
  sum_items-all s p i (path ∷ ps) sum h =
      let le = count_done-le s p (suc i) ps in
      let size = item_size stat s i path in
      let done : item_done stat s p i path ≡ true = ground arith in
      let rest : length ps ≤ count_done stat s p (suc i) ps = ground arith in
      let sums =
        λ (counted : ℤ). sum_items stat s p (suc i) ps (add64 sum counted) (add64 sum size) in
      subst (λ c. (sums c).0 ≡ (sums c).1) (sym (item_done-counted s p i path done))
        (sum_items-all s p (suc i) ps (add64 sum size) rest)

  finished_with-items_with :
      (s : Server) (client : String) (ps : List String) (found : Option (IntMap ℤ))
      → length ps == 0 ≡ false
      → (finished_with stat s client ps found ≡ true)
        ↔ (items_with stat s client ps found ≡ indices 0 ps)
  unfolding finished_with items_with
  finished_with-items_with s client ps none some_items =
      (λ e. cc, λ e. let n : 0 ≡ length ps = ap length e ∙ length-indices 0 ps in ground arith)
  finished_with-items_with s client ps (some p) some_items =
      let n = length-done_items s p 0 ps in
      let m = length-indices 0 ps in
      let le = count_done-le s p 0 ps in
      elim (Bool-cases (zip_done s client p)) [
        | inl zipped ↦ rw (zipped, finished_with) (λ e. refl, λ e. refl)
        | inr single ↦
            rw (single, finished_with)
              (
                λ e. count_done-all s p 0 ps (leb→le (length ps) (count_done stat s p 0 ps) e),
                λ e.
                    let same : length (done_items stat s p 0 ps) ≡ length (indices 0 ps) =
                      ap length e in
                    le→leb (length ps) (count_done stat s p 0 ps) (omega (arith, n, m, same)),
              )
      ]

  -- A share with items is finished for a client exactly when all its items are listed as downloaded.
  pub is_client_finished-iff_all_items :
      (s : Server) (client : String)
      → length (path_list s) == 0 ≡ false
      → (is_client_finished stat s client ≡ true)
        ↔ (get_client_downloaded_items stat s client ≡ indices 0 (path_list s))
  unfolding is_client_finished get_client_downloaded_items
  is_client_finished-iff_all_items s client some_items =
      rw some_items
        (finished_with-items_with s client (path_list s) (lookup client s.progress) some_items)

  -- The client begins the archive again, or for the first time, and has not all of it.
  abbrev pub ZipBegun : Server → String → Type 0
  ZipBegun s client =
      (p : IntMap ℤ) × (lookup client s.progress ≡ some p)
      × (zip_begun s client p ≡ true)
      × (zip_done s client p ≡ false)

  finished_with-bytes_with :
      (s : Server) (client : String) (ps : List String) (found : Option (IntMap ℤ))
      → finished_with stat s client ps found ≡ true
      → ((bytes_with stat s client ps found).0 ≡ (bytes_with stat s client ps found).1)
        ⊎ ((p : IntMap ℤ) × (found ≡ some p)
            × (zip_begun s client p ≡ true)
            × (zip_done s client p ≡ false))
  unfolding finished_with bytes_with
  finished_with-bytes_with s client ps none done = cc
  finished_with-bytes_with s client ps (some p) done = elim (Bool-cases (zip_done s client p)) [
    | inl zipped ↦ inl (rw (zipped, bytes_with) refl)
    | inr single ↦ elim (Bool-cases (zip_begun s client p)) [
      | inl begun ↦ inr (p, refl, begun, single)
      | inr other ↦
          let all : length ps ≤ count_done stat s p 0 ps = ground arith in
          inl (rw (single, bytes_with) (rw other (sum_items-all s p 0 ps (pos 0) all)))
    ]
  ]

  sent_bytes :
      (s : Server) (client : String) (ps : List String)
      → s.paths ≡ some ps
      → get_client_downloaded_and_total stat s client
        ≡ bytes_with stat s client ps (lookup client s.progress)
  unfolding get_client_downloaded_and_total
  sent_bytes s client ps e =
      ap
        (λ (f : Option (List String)). elim f as (λ _. ℤ × ℤ) [
          | none ↦ elim (lookup client s.client_states) [
            | none ↦ (pos 0, pos 0)
            | some state ↦ (state.bytes_done, state.bytes_total)
          ]
          | some qs ↦ bytes_with stat s client qs (lookup client s.progress)
        ])
        e

  sent_finished :
      (s : Server) (client : String) (ps : List String)
      → s.paths ≡ some ps
      → is_client_finished stat s client ≡ true
      → finished_with stat s client ps (lookup client s.progress) ≡ true
  unfolding is_client_finished
  sent_finished s client ps e done =
      let same : path_list s ≡ ps = ap (λ f. elim f [ none ↦ [] | some qs ↦ qs ]) e in
      let h : finished_with stat s client (path_list s) (lookup client s.progress) ≡ true =
        ground (arith, done) in
      ap (λ qs. finished_with stat s client qs (lookup client s.progress)) (sym same) ∙ h

  -- The bytes of a finished client of a sender are its total, unless it is at the archive again and has not
  -- all of it.
  pub is_client_finished-bytes :
      (s : Server) (client : String) (ps : List String)
      → s.paths ≡ some ps
      → is_client_finished stat s client ≡ true
      → ((get_client_downloaded_and_total stat s client).0
          ≡ (get_client_downloaded_and_total stat s client).1)
        ⊎ ZipBegun s client
  is_client_finished-bytes s client ps e done = rw (sent_bytes s client ps e) (
      finished_with-bytes_with s client ps (lookup client s.progress)
        (sent_finished s client ps e done))
