-- ===== src/Share/Status.antt =====
-- pkg/server/server.go: the status of the transfer and what the activity of the clients makes of it.
-- Without the speeds of the clients, the subscribers, and the signal that stops the server.
use eqrcp.Base.{
  ℕ, suc, ◌*◌, String, Bool, true, false, ◌&&◌, List, [], ◌∷◌, Option, none, some, leb, ◌==◌, ◌=ₛ◌,
  length, if◌then◌else◌,
}
use eqrcp.Base.Int.{ℤ, pos, leb_ℤ, ltb_ℤ, eqb_ℤ}
use eqrcp.Base.Int64.{add64}
use eqrcp.Base.Clock.{Time, millisecond, time_sub}
use eqrcp.Base.Assoc.{lookup, insert}
use eqrcp.Quota.Usage.{ChatUsage}
use eqrcp.Server.Percent.{transfer_percent}
use eqrcp.Share.{Server, TransferStatus, ClientTransferStateInfo, IntMap, put, path_list}
use eqrcp.Share.Progress.{zip_item, sum_sizes, get_client_downloaded_and_total}
use eqrcp.Share.Clients.{
  is_client_limit_exceeded, seen_now, get_active_clients, get_connected_devices_count,
  update_client_status,
}
use eqrcp.Share.Finished.{is_all_active_clients_finished, ignored_at_start}
use eqrcp.Share.Snapshot.{
  record_status, snapshot_transfer_status, get_item_client_stats, get_status,
}

unfoldable pub max_done : List (String × ClientTransferStateInfo) → ℤ
max_done [] = pos 0
max_done ((id, state) ∷ m) =
    let others = max_done m in if ltb_ℤ others state.bytes_done then state.bytes_done else others

-- `os.Stat`, `fmt.Sprintf("%d/%d", ...)` and the text of the program's version.
module _ (stat : String → Option ℤ) (show_stat : ℕ → ℕ → String) (version : String) where
  -- The next number of the status, with the call of the hook.
  abbrev pub publish_status : Server → Time → Server
  publish_status s now = record s {
    status_seq = add64 s.status_seq (pos 1);
    hooked = snapshot_transfer_status (get_status stat show_stat version s now) ∷ s.hooked;
  }

  unfoldable pub set_status : Server → (state message : String) → Time → Server
  set_status s state message now =
      let st = record s.status { state = state; message = message } in
      let ended =
        if state =ₛ "completed"
        then record st { bytes_done = st.bytes_total; percent = pos 100 }
        else st in
      publish_status (record s { status = ended }) now

  unfoldable pub sum_clients : Server → List String → ℤ × ℤ
  sum_clients s ids = add_clients ids (pos 0) (pos 0)
    where
      add_clients : List String → ℤ → ℤ → ℤ × ℤ
      add_clients [] done total = (done, total)
      add_clients (id ∷ ids) done total =
          let (d, t) = get_client_downloaded_and_total stat s id in
          add_clients ids (add64 done d) (add64 total t)

  -- The bytes of a send: those of the client that is ahead, of the sizes of all items.
  unfoldable pub send_bytes : Server → TransferStatus → TransferStatus
  send_bytes s st =
      let ahead = max_done s.client_states in
      let done = if ltb_ℤ st.bytes_done ahead then ahead else st.bytes_done in
      let total =
        if leb_ℤ st.bytes_total (pos 0)
        then elim s.paths [ none ↦ st.bytes_total | some ps ↦ sum_sizes stat s 0 ps (pos 0) ]
        else st.bytes_total in
      record st { bytes_done = done; bytes_total = total }

  -- The bytes of the active clients together.
  unfoldable pub receive_bytes : Server → Time → TransferStatus → TransferStatus
  receive_bytes s now st =
      let (done, total) = sum_clients s (get_active_clients s now) in
      if ltb_ℤ (pos 0) total then record st { bytes_done = done; bytes_total = total } else st

  unfoldable pub update_status : Server → (TransferStatus → TransferStatus) → Time → Server
  update_status s update now =
      let st = update s.status in
      let summed = if st.mode =ₛ "send" then send_bytes s st else receive_bytes s now st in
      let updated = record summed {
        percent = transfer_percent summed.bytes_done summed.bytes_total;
        item_client_stats = get_item_client_stats stat show_stat version s now;
        transfer_device_count = get_connected_devices_count s now;
        auto_stop = s.auto_stop;
      } in
      publish_status (record s { status = updated }) now

  unfoldable pub trigger_status_hook_throttled : Server → Time → Server
  trigger_status_hook_throttled s now =
      if ltb_ℤ (time_sub now s.last_hook_time) (pos (200 * millisecond))
      then s
      else (let s' = record s { last_hook_time = now } in
          record s' {
            hooked = snapshot_transfer_status (get_status stat show_stat version s' now) ∷ s.hooked;
          })

  -- All items for the archive, or the one.
  unfoldable pub mark : Server → (index : ℤ) → IntMap Bool
  mark s index =
      if eqb_ℤ index zip_item
      then put_all 0 (path_list s) s.downloaded_items
      else put index true s.downloaded_items
    where
      put_all : ℕ → List String → IntMap Bool → IntMap Bool
      put_all i [] m = m
      put_all i (path ∷ paths) m = put_all (suc i) paths (put (pos i) true m)

  unfoldable pub marked : IntMap Bool → List ℤ
  marked [] = []
  marked ((i, done) ∷ m) = let others = marked m in if done then i ∷ others else others

  -- Whether the share is complete with this item.
  unfoldable pub mark_item_downloaded : Server → (index : ℤ) → Time → Server × Bool
  mark_item_downloaded s index now =
      let items = mark s index in
      let s' =
        update_status (record s { downloaded_items = items })
          (λ st. record st { downloaded_items = marked items }) now in
      (
        s',
        if length s'.last_seen == 0
            then leb (length (path_list s)) (length items)
            else is_all_active_clients_finished stat s' now,
      )

  abbrev pub with_total : ℤ → ClientTransferStateInfo → ClientTransferStateInfo
  with_total total cs =
      if leb_ℤ cs.bytes_total (pos 0) && ltb_ℤ (pos 0) total
      then record cs { bytes_total = total }
      else cs

  -- The status shows a client that was not seen before.
  unfoldable pub show_new : Server → (before : Option Time) → Time → Server
  show_new s none now = update_status s (λ st. st) now
  show_new s (some before) now = s

  -- The part of the registration after the check: the client is noted, and its status.
  abbrev pub enter_client :
      Server → (client : String) → (device_name : Option String) → Time → Server
  enter_client s client device_name now =
      let seen = seen_now s now client in
      let shown = show_new seen (lookup client s.last_seen) now in
      update_client_status shown client device_name (with_total shown.status.bytes_total)

  -- The registration where nothing comes between the check and the rest.
  unfoldable pub register_client_activity_with_id :
      Server
      → (testing : Bool) → ChatUsage
      → (client : String) → (device_name : Option String) → Time
      → Server
  register_client_activity_with_id s testing usage client device_name now =
      if is_client_limit_exceeded s testing usage now client
      then s
      else enter_client s client device_name now

  unfoldable pub stop_client_transfer : Server → (client : String) → Time → Server × Bool
  stop_client_transfer s client now =
      if client =ₛ "" then (s, false) else elim (lookup client s.client_states) [
        | none ↦ (trigger_status_hook_throttled s now, false)
        | some state ↦
            let stopped = record state {
              state = "stopped";
              message = "Transfer stopped by host.";
              speed = pos 0;
              speed_formatted = "";
            } in
            let s' = record s { client_states = insert client stopped s.client_states } in
            (trigger_status_hook_throttled s' now, true)
      ]

  -- The flag tells whether the server is stopped after the grace period.
  unfoldable pub set_auto_stop : Server → (enabled : Bool) → Time → Server × Bool
  set_auto_stop s enabled now =
      let switched = record s {
        auto_stop = enabled;
        status = record s.status { auto_stop = enabled };
      } in
      let shown = publish_status switched now in
      let noted = record shown {
        auto_stop_ignored = if enabled then ignored_at_start stat shown shown.last_seen else [];
      } in
      let done = record noted.status { state = "completed"; message = "Transfer completed." } in
      if enabled && is_all_active_clients_finished stat noted now
      then (record_status (record noted { status = done }) now, true)
      else (noted, false)
