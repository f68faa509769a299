-- ===== src/Share/Clients.antt =====
-- pkg/server/server.go: who is connected, the limits on unpaid shares, and the states of the clients.
use eqrcp.Base.{
  ℕ, suc, ◌*◌, String, Bool, true, false, not, ◌&&◌, ◌||◌, List, [], ◌∷◌, Option, none, some, leb,
  ◌=ₛ◌, if◌then◌else◌,
}
use eqrcp.Base.Int.{pos, leb_ℤ, ltb_ℤ}
use eqrcp.Base.Clock.{Time, second, time_sub}
use eqrcp.Base.Assoc.{lookup, insert, erase}
use eqrcp.Quota.Usage.{ChatUsage}
use eqrcp.Share.{Server, ClientTransferStateInfo}

-- `now.Sub(lastSeen) <= 8*time.Second`.
abbrev pub active_at : Time → Time → Bool
active_at now seen = leb_ℤ (time_sub now seen) (pos (8 * second))

unfoldable pub count_active : Time → List (String × Time) → ℕ
count_active now [] = 0
count_active now ((id, seen) ∷ m) =
    let others = count_active now m in if active_at now seen then suc others else others

-- The active clients but this one.
unfoldable pub count_others : Time → String → List (String × Time) → ℕ
count_others now client [] = 0
count_others now client ((id, seen) ∷ m) =
    let others = count_others now client m in
    if not (id =ₛ client) && active_at now seen then suc others else others

unfoldable pub active_ids : Time → List (String × Time) → List String
active_ids now [] = []
active_ids now ((id, seen) ∷ m) =
    let others = active_ids now m in if active_at now seen then id ∷ others else others

unfoldable pub get_connected_devices_count : Server → Time → ℕ
get_connected_devices_count s now = count_active now s.last_seen

unfoldable pub get_active_clients : Server → Time → List String
get_active_clients s now = active_ids now s.last_seen

-- Whether the client is one of the active ones.
unfoldable pub is_active : Time → String → List (String × Time) → Bool
is_active now client m = elim (lookup client m) [ none ↦ false | some seen ↦ active_at now seen ]

-- The usage is what `GetStatus` gives at this time.
unfoldable pub is_client_limit_exceeded :
    Server → (testing : Bool) → ChatUsage → Time → (client : String) → Bool
is_client_limit_exceeded s testing usage now client =
    if s.keep_alive && not testing
    then false
    else if usage.is_paid
    then false
    else if ltb_ℤ usage.used_transfers (pos 5)
    then false
    else if client =ₛ ""
    then false
    else if is_active now client s.last_seen
    then false
    else leb 2 (count_others now client s.last_seen)

unfoldable pub is_receive_client_limit_exceeded :
    Server → (testing : Bool) → ChatUsage → Time → (client : String) → Bool
is_receive_client_limit_exceeded s testing usage now client =
    if s.keep_alive && not testing
    then false
    else if usage.is_paid
    then false
    else if ltb_ℤ usage.used_receive_transfers (pos 5)
    then false
    else if client =ₛ ""
    then false
    else if is_active now client s.last_seen
    then false
    else leb 1 (count_others now client s.last_seen)

-- The client is noted as seen now.
abbrev pub seen_now : Server → Time → String → Server
seen_now s now client = record s { last_seen = insert client now s.last_seen }

abbrev pub waiting : String → ClientTransferStateInfo
waiting client = record {
  client_id = client;
  state = "waiting";
  bytes_done = pos 0;
  bytes_total = pos 0;
  percent = pos 0;
  current = "";
  message = "Waiting for transfer to start.";
  device_name = "";
  saved_files = [];
  files = [];
  files_declared = false;
  active_connections = pos 0;
  speed = pos 0;
  speed_formatted = "";
}

unfoldable pub get_client_status : Server → String → ClientTransferStateInfo
get_client_status s client = elim (lookup client s.client_states) [
  | none ↦ waiting client
  | some state ↦ state
]

-- `device_name` is the name that the request's User-Agent and the id give, if there is a request.
unfoldable pub update_client_status :
    Server
    → String
    → (device_name : Option String) → (ClientTransferStateInfo → ClientTransferStateInfo)
    → Server
update_client_status s client device_name update =
    let old = get_client_status s client in
    let name : String = elim device_name [
      | none ↦ old.device_name
      | some given ↦ if old.device_name =ₛ "" then given else old.device_name
    ] in
    let updated = update (record old { client_id = client; device_name = name }) in
    record s {
      client_states = insert client updated s.client_states;
      auto_stop_ignored =
          if updated.state =ₛ "transferring"
          then erase client s.auto_stop_ignored
          else s.auto_stop_ignored;
    }

unfoldable pub transferring_but : String → List (String × ClientTransferStateInfo) → Bool
transferring_but excluded [] = false
transferring_but excluded ((id, state) ∷ m) =
    let others = transferring_but excluded m in
    if id =ₛ excluded
    then others
    else if state.state =ₛ "transferring" || ltb_ℤ (pos 0) state.active_connections
    then true
    else others

unfoldable pub has_active_transferring_clients : Server → (excluded : String) → Bool
has_active_transferring_clients s excluded = transferring_but excluded s.client_states
