-- ===== src/Share/Snapshot.antt =====
-- pkg/server/server.go: the copies of the status, for the history, a page and the hook.
use eqrcp.Base.{
  ℕ, suc, ◌*◌, String, Bool, false, ◌||◌, List, [], ◌∷◌, Option, none, some, ◌=ₛ◌, take, map,
  if◌then◌else◌,
}
use eqrcp.Base.Int.{ℤ, pos, ltb_ℤ}
use eqrcp.Base.Clock.{Time, second, time_sub}
use eqrcp.Base.Assoc.{lookup}
use eqrcp.Share.{
  Server, TransferStatus, TransferStatusRecord, TransferStatusSnapshot, ClientTransferStateInfo,
  path_list,
}
use eqrcp.Share.Progress.{item_done}
use eqrcp.Share.Clients.{get_connected_devices_count}

unfoldable pub is_terminal_transfer_state : String → Bool
is_terminal_transfer_state state = state =ₛ "completed" || (state =ₛ "stopped" || state =ₛ "failed")

abbrev pub max_transfer_history : ℕ
max_transfer_history = 20

unfoldable pub record_status : Server → Time → Server
record_status s now =
    let st = s.status in
    let entry : TransferStatusRecord = record {
      state = st.state;
      mode = st.mode;
      title = st.title;
      target = st.target;
      archive = st.archive;
      archive_name = st.archive_name;
      items = st.items;
      current = st.current;
      message = st.message;
      bytes_done = st.bytes_done;
      bytes_total = st.bytes_total;
      percent = st.percent;
      saved_files = st.saved_files;
      finished_at = now;
    } in
    record s { history = take max_transfer_history (entry ∷ s.history) }

-- The copies of the states, without the counts of the open connections.
abbrev pub copied : String × ClientTransferStateInfo → String × ClientTransferStateInfo
copied (id, state) = (id, record state { active_connections = pos 0 })

unfoldable pub copy_client_states : Server → List (String × ClientTransferStateInfo)
copy_client_states s = map copied s.client_states

-- The copy for the hook; the count of the devices is not copied.
unfoldable pub snapshot_transfer_status : TransferStatus → TransferStatusSnapshot
snapshot_transfer_status st = record {
  state = st.state;
  mode = st.mode;
  title = st.title;
  target = st.target;
  archive = st.archive;
  archive_name = st.archive_name;
  items = st.items;
  current = st.current;
  message = st.message;
  bytes_done = st.bytes_done;
  bytes_total = st.bytes_total;
  percent = st.percent;
  saved_files = st.saved_files;
  version = st.version;
  item_client_stats = st.item_client_stats;
  transfer_device_count = 0;
  auto_stop = st.auto_stop;
  downloaded_items = st.downloaded_items;
  client_states = map copied st.client_states;
}

-- `os.Stat`, `fmt.Sprintf("%d/%d", ...)` and the text of the program's version.
module _ (stat : String → Option ℤ) (show_stat : ℕ → ℕ → String) (version : String) where
  -- Of the clients that were seen within six seconds, those that have the item, and all.
  unfoldable pub item_client_stat :
      Server → Time → (i : ℕ) → (path : String) → List (String × Time) → ℕ × ℕ
  item_client_stat s now i path [] = (0, 0)
  item_client_stat s now i path ((id, seen) ∷ m) =
      let (finished, devices) = item_client_stat s now i path m in
      let done : Bool = elim (lookup id s.progress) [
        | none ↦ false
        | some progress ↦ item_done stat s progress i path
      ] in
      if ltb_ℤ (pos (6 * second)) (time_sub now seen)
      then (finished, devices)
      else (if done then suc finished else finished, suc devices)

  unfoldable pub item_client_stats : Server → Time → (i : ℕ) → List String → List String
  item_client_stats s now i [] = []
  item_client_stats s now i (path ∷ paths) =
      let (finished, devices) = item_client_stat s now i path s.last_seen in
      show_stat finished devices ∷ item_client_stats s now (suc i) paths

  unfoldable pub get_item_client_stats : Server → Time → List String
  get_item_client_stats s now = item_client_stats s now 0 (path_list s)

  -- A copy of the status with what is known of the clients.
  unfoldable pub get_status : Server → Time → TransferStatus
  get_status s now = record s.status {
    version = version;
    client_states = copy_client_states s;
    transfer_device_count = get_connected_devices_count s now;
    item_client_stats = get_item_client_stats s now;
  }
