-- ===== src/Share.antt =====
-- pkg/server/server.go: the server of one transfer, its records and the maps from a client's id.
pub mod Progress
pub mod Clients
pub mod Finished
pub mod Snapshot
pub mod Status
pub mod Devices
pub mod Complete
pub mod Counted
pub mod Active
pub mod Passed
pub mod Limit
use eqrcp.Base.{ℕ, String, Bool, List, Option, none, some, [], ◌∷◌, if◌then◌else◌}
use eqrcp.Base.Int.{ℤ, pos, eqb_ℤ}
use eqrcp.Base.Clock.{Time}

pub record ClientFileTransferState : Type 0 where
  pub file_id : String
  pub name : String
  pub path : String
  pub state : String
  pub bytes_done : ℤ
  pub bytes_total : ℤ
  pub percent : ℤ

pub record ClientTransferStateInfo : Type 0 where
  pub client_id : String
  pub state : String
  pub bytes_done : ℤ
  pub bytes_total : ℤ
  pub percent : ℤ
  pub current : String
  pub message : String
  pub device_name : String
  pub saved_files : List String
  pub files : List ClientFileTransferState
  pub files_declared : Bool
  pub active_connections : ℤ
  pub speed : ℤ
  pub speed_formatted : String

pub record TransferStatus : Type 0 where
  pub client_id : String
  pub device_name : String
  pub state : String
  pub mode : String
  pub title : String
  pub target : String
  pub archive : Bool
  pub archive_name : String
  pub items : List String
  pub downloaded_items : List ℤ
  pub item_client_stats : List String
  pub current : String
  pub message : String
  pub bytes_done : ℤ
  pub bytes_total : ℤ
  pub percent : ℤ
  pub saved_files : List String
  pub version : String
  pub transfer_device_count : ℕ
  pub auto_stop : Bool
  pub client_states : List (String × ClientTransferStateInfo)

pub record TransferStatusRecord : Type 0 where
  pub state : String
  pub mode : String
  pub title : String
  pub target : String
  pub archive : Bool
  pub archive_name : String
  pub items : List String
  pub current : String
  pub message : String
  pub bytes_done : ℤ
  pub bytes_total : ℤ
  pub percent : ℤ
  pub saved_files : List String
  pub finished_at : Time

-- What the hook of the status gets.
pub record TransferStatusSnapshot : Type 0 where
  pub state : String
  pub mode : String
  pub title : String
  pub target : String
  pub archive : Bool
  pub archive_name : String
  pub items : List String
  pub current : String
  pub message : String
  pub bytes_done : ℤ
  pub bytes_total : ℤ
  pub percent : ℤ
  pub saved_files : List String
  pub version : String
  pub item_client_stats : List String
  pub transfer_device_count : ℕ
  pub auto_stop : Bool
  pub downloaded_items : List ℤ
  pub client_states : List (String × ClientTransferStateInfo)

-- A `map[int]V`, in one order of its entries.
abbrev pub IntMap : Type 0 → Type 0
IntMap V = List (ℤ × V)

-- `m[i]`, which is 0 for a missing key.
unfoldable pub entry_of : ℤ → IntMap ℤ → ℤ
entry_of i [] = pos 0
entry_of i ((j, v) ∷ m) = let others = entry_of i m in if eqb_ℤ i j then v else others

-- `m[i] = v`.
unfoldable pub put : {V : Type 0} → ℤ → V → IntMap V → IntMap V
put i v [] = (i, v) ∷ []
put i v ((j, w) ∷ m) = let others = put i v m in if eqb_ℤ i j then (i, v) ∷ m else (j, w) ∷ others

-- `hooked` are the snapshots that the hook of the status was called with, the last first.
pub record Server : Type 0 where
  pub paths : Option (List String)
  pub status : TransferStatus
  pub history : List TransferStatusRecord
  pub status_seq : ℤ
  pub downloaded_items : IntMap Bool
  pub keep_alive : Bool
  pub auto_stop : Bool
  pub auto_stop_ignored : List (String × Bool)
  pub last_seen : List (String × Time)
  pub progress : List (String × IntMap ℤ)
  pub active_item : List (String × ℤ)
  pub client_states : List (String × ClientTransferStateInfo)
  pub expected_bytes : IntMap ℤ
  pub last_hook_time : Time
  pub hooked : List TransferStatusSnapshot

-- `len(s.body.Paths)` and the paths, of which there are none if there is no list.
abbrev pub path_list : Server → List String
path_list s = elim s.paths [ none ↦ [] | some ps ↦ ps ]
