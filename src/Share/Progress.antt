-- ===== src/Share/Progress.antt =====
-- pkg/server/server.go: how far a client is with the items, as a ZIP archive or one by one.
use eqrcp.Base.{
  ℕ, suc, String, Bool, true, false, ◌&&◌, List, [], ◌∷◌, Option, none, some, leb, ◌==◌, length,
  if◌then◌else◌,
}
use eqrcp.Base.Int.{ℤ, pos, negsuc, leb_ℤ, ltb_ℤ, eqb_ℤ}
use eqrcp.Base.Int64.{add64}
use eqrcp.Base.Assoc.{lookup, insert}
use eqrcp.Share.{Server, IntMap, entry_of, put, path_list}

abbrev pub zip_item : ℤ
zip_item = negsuc 0

-- The progress of a client, which is empty for one without an entry.
abbrev pub progress_of : Server → String → IntMap ℤ
progress_of s client = elim (lookup client s.progress) [ none ↦ [] | some m ↦ m ]

abbrev pub set_item : Server → String → ℤ → ℤ → Server
set_item s client item v = record s {
  progress = insert client (put item v (progress_of s client)) s.progress;
}

unfoldable pub add_client_downloaded_bytes : Server → String → (item written : ℤ) → Server
add_client_downloaded_bytes s client item written =
    set_item s client item (add64 (entry_of item (progress_of s client)) written)

unfoldable pub reset_client_downloaded_bytes : Server → String → (item : ℤ) → Server
reset_client_downloaded_bytes s client item = set_item s client item (pos 0)

unfoldable pub set_client_downloaded_bytes : Server → String → (item val : ℤ) → Server
set_client_downloaded_bytes s client item val = set_item s client item val

unfoldable pub set_client_active_item : Server → String → (item : ℤ) → Server
set_client_active_item s client item = record s { active_item = insert client item s.active_item }

-- `os.Stat(path)`: the size of a file, if there is one.
module _ (stat : String → Option ℤ) where
  -- The size that is expected of an item, or that of its file.
  unfoldable pub item_size : Server → (i : ℕ) → (path : String) → ℤ
  item_size s i path =
      let size = entry_of (pos i) s.expected_bytes in
      if leb_ℤ size (pos 0) then elim (stat path) [ none ↦ size | some n ↦ n ] else size

  unfoldable pub item_done : Server → IntMap ℤ → (i : ℕ) → (path : String) → Bool
  item_done s progress i path =
      let size = item_size s i path in ltb_ℤ (pos 0) size && leb_ℤ size (entry_of (pos i) progress)

  -- The number of the items from the i-th on that a client has whole.
  unfoldable pub count_done : Server → IntMap ℤ → (i : ℕ) → List String → ℕ
  count_done s progress i [] = 0
  count_done s progress i (path ∷ paths) =
      let others = count_done s progress (suc i) paths in
      if item_done s progress i path then suc others else others

  -- Their indices.
  unfoldable pub done_items : Server → IntMap ℤ → (i : ℕ) → List String → List ℤ
  done_items s progress i [] = []
  done_items s progress i (path ∷ paths) =
      let others = done_items s progress (suc i) paths in
      if item_done s progress i path then pos i ∷ others else others

  -- The bytes that count of the items from the i-th on, and their sizes, added to two sums.
  unfoldable pub sum_items :
      Server → IntMap ℤ → (i : ℕ) → List String → (downloaded total : ℤ) → ℤ × ℤ
  sum_items s progress i [] downloaded total = (downloaded, total)
  sum_items s progress i (path ∷ paths) downloaded total =
      let size = item_size s i path in
      let bytes = entry_of (pos i) progress in
      let counted = if ltb_ℤ size bytes then size else bytes in
      sum_items s progress (suc i) paths (add64 downloaded counted) (add64 total size)

  -- The sizes alone, for a client without progress.
  unfoldable pub sum_sizes : Server → (i : ℕ) → List String → (total : ℤ) → ℤ
  sum_sizes s i [] total = total
  sum_sizes s i (path ∷ paths) total = sum_sizes s (suc i) paths (add64 total (item_size s i path))

-- No single item has begun.
unfoldable pub singles_zero : IntMap ℤ → Bool
singles_zero [] = true
singles_zero ((k, v) ∷ m) =
    let others = singles_zero m in if leb_ℤ (pos 0) k && ltb_ℤ (pos 0) v then false else others

unfoldable pub is_client_zip_mode_locked : Server → String → IntMap ℤ → Bool
is_client_zip_mode_locked s client progress = elim (lookup client s.active_item) [
  | some item ↦ eqb_ℤ item zip_item
  | none ↦ singles_zero progress
]

-- The client downloads the archive and has all of it.
unfoldable pub zip_done : Server → String → IntMap ℤ → Bool
zip_done s client progress =
    let total = entry_of zip_item s.expected_bytes in
    let bytes = entry_of zip_item progress in
    ltb_ℤ (pos 0) total
    && (is_client_zip_mode_locked s client progress && (leb_ℤ total bytes && ltb_ℤ (pos 0) bytes))

-- The client downloads the archive and has some of it, or all.
unfoldable pub zip_begun : Server → String → IntMap ℤ → Bool
zip_begun s client progress =
    ltb_ℤ (pos 0) (entry_of zip_item s.expected_bytes)
    && (is_client_zip_mode_locked s client progress && ltb_ℤ (pos 0) (entry_of zip_item progress))

-- `from`, `from + 1`, and so on, as many as there are paths.
unfoldable pub indices : (i : ℕ) → List String → List ℤ
indices i [] = []
indices i (path ∷ paths) = pos i ∷ indices (suc i) paths

module _ (stat : String → Option ℤ) where
  -- For the items and the client's progress, if it has an entry.
  unfoldable pub finished_with : Server → String → List String → Option (IntMap ℤ) → Bool
  finished_with s client ps none = false
  finished_with s client ps (some progress) =
      if zip_done s client progress then true else leb (length ps) (count_done stat s progress 0 ps)

  unfoldable pub is_client_finished : Server → String → Bool
  is_client_finished s client =
      let ps = path_list s in
      if length ps == 0 then false else finished_with s client ps (lookup client s.progress)

  unfoldable pub items_with : Server → String → List String → Option (IntMap ℤ) → List ℤ
  items_with s client ps none = []
  items_with s client ps (some progress) =
      if zip_done s client progress then indices 0 ps else done_items stat s progress 0 ps

  unfoldable pub get_client_downloaded_items : Server → String → List ℤ
  get_client_downloaded_items s client =
      let ps = path_list s in
      if length ps == 0 then [] else items_with s client ps (lookup client s.progress)

  unfoldable pub bytes_with : Server → String → List String → Option (IntMap ℤ) → ℤ × ℤ
  bytes_with s client ps none = (pos 0, sum_sizes stat s 0 ps (pos 0))
  bytes_with s client ps (some progress) =
      let total = entry_of zip_item s.expected_bytes in
      let bytes = entry_of zip_item progress in
      if zip_done s client progress
      then (total, total)
      else if zip_begun s client progress
      then (if ltb_ℤ total bytes then total else bytes, total)
      else sum_items stat s progress 0 ps (pos 0) (pos 0)

  unfoldable pub get_client_downloaded_and_total : Server → String → ℤ × ℤ
  get_client_downloaded_and_total s client = elim s.paths [
    | none ↦ elim (lookup client s.client_states) [
      | none ↦ (pos 0, pos 0)
      | some state ↦ (state.bytes_done, state.bytes_total)
    ]
    | some ps ↦ bytes_with s client ps (lookup client s.progress)
  ]
