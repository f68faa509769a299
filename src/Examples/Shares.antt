-- ===== src/Examples/Shares.antt =====
-- pkg/server/server.go, the share of a few files, at concrete inputs.
use eqrcp.Base.{
  ◌≤◌, length, ℕ, ◌≡◌, ◌↔◌, ◌⊎◌, refl, arith, eq_iff, String, true, false, none, some, Option, List,
  [], ◌∷◌,
}
use eqrcp.Base.Int.{ℤ, pos}
use eqrcp.Base.Clock.{second, time_sub}
use eqrcp.Base.Assoc.{lookup}
use eqrcp.Quota.Usage.{no_usage}
use eqrcp.Share.{Server, TransferStatus, entry_of}
use eqrcp.Share.Devices.{
  IsSafeName, sanitize_device_id, short_device_id, sanitize_device_id-IsSafeName,
}
use eqrcp.Share.Clients.{waiting, count_active, count_others, is_active, is_client_limit_exceeded}
use eqrcp.Share.Progress.{
  is_client_finished, get_client_downloaded_items, get_client_downloaded_and_total, indices,
  zip_done, count_done, item_done, item_size, finished_with,
}
use eqrcp.Share.Finished.{is_all_active_clients_finished, counts_as_finished, ignored}
use eqrcp.Share.Complete.{ZipBegun, is_client_finished-iff_all_items, is_client_finished-bytes}
use eqrcp.Share.Counted.{Ends, is_all_active_clients_finished-Ends}
use eqrcp.Share.Limit.{Request, Door, Act, checks, enters, act, acts, Within, acts-Bounded}

abbrev idle : TransferStatus
idle = record {
  client_id = "";
  device_name = "";
  state = "waiting";
  mode = "send";
  title = "";
  target = "";
  archive = false;
  archive_name = "";
  items = [];
  downloaded_items = [];
  item_client_stats = [];
  current = "";
  message = "";
  bytes_done = pos 0;
  bytes_total = pos 0;
  percent = pos 0;
  saved_files = [];
  version = "";
  transfer_device_count = 0;
  auto_stop = false;
  client_states = [];
}

-- Two files, of which the first has its size announced; the phone has both.
abbrev share : Server
share = record {
  paths = some ("a" ∷ "b" ∷ []);
  status = idle;
  history = [];
  status_seq = pos 0;
  downloaded_items = [];
  keep_alive = false;
  auto_stop = true;
  auto_stop_ignored = [];
  last_seen = ("phone", 0) ∷ [];
  progress = ("phone", (pos 0, pos 10) ∷ (pos 1, pos 20) ∷ []) ∷ [];
  active_item = ("phone", pos 1) ∷ [];
  client_states = ("phone", waiting "phone") ∷ [];
  expected_bytes = (pos 0, pos 10) ∷ [];
  last_hook_time = 0;
  hooked = [];
}

abbrev sizes : String → Option ℤ
sizes path = some (pos 20)

finished : is_client_finished sizes share "phone" ≡ true
unfolding is_client_finished finished_with zip_done count_done item_done item_size entry_of lookup
finished = refl

is_client_finished-iff_all_items_example :
    (is_client_finished sizes share "phone" ≡ true)
    ↔ (get_client_downloaded_items sizes share "phone" ≡ indices 0 ("a" ∷ "b" ∷ []))
is_client_finished-iff_all_items_example = is_client_finished-iff_all_items sizes share "phone" refl

is_client_finished-bytes_example :
    ((get_client_downloaded_and_total sizes share "phone").0
      ≡ (get_client_downloaded_and_total sizes share "phone").1)
    ⊎ ZipBegun sizes share "phone"
is_client_finished-bytes_example =
    is_client_finished-bytes sizes share "phone" ("a" ∷ "b" ∷ []) refl finished

is_all_active_clients_finished-Ends_example :
    (is_all_active_clients_finished sizes share 0 ≡ true)
    ↔ Ends (counts_as_finished sizes share) (ignored share) 0 (("phone", 0) ∷ [])
is_all_active_clients_finished-Ends_example = is_all_active_clients_finished-Ends sizes share 0

abbrev request : String → ℕ → Request
request client now = record {
  client = client;
  usage = record no_usage { used_transfers = pos 5 };
  now = now;
}

-- The tablet and the desk are both checked before either is noted.
abbrev race : List Act
race =
    checks (request "tablet" 5)
    ∷ checks (request "desk" 6)
    ∷ enters "tablet" none 7
    ∷ enters "desk" none second
    ∷ []

abbrev door : Door
door = record { server = share; passed = [] }

abbrev raced : Door
raced = acts sizes (λ a b. "") "v" false door race

race_fits : Within sizes (λ a b. "") "v" false 2 0 door race
unfolding act is_client_limit_exceeded count_others is_active lookup time_sub
race_fits = (
  ((refl, ground arith), ground (arith, eq_iff "tablet" "")),
  ground arith,
  omega arith,
  (
    ((refl, ground arith), ground (arith, eq_iff "desk" "")),
    ground arith,
    omega arith,
    (tt, ground arith, omega arith, (tt, ground arith, omega arith, tt)),
  ),
)

race_ends : raced.passed ≡ []
unfolding act is_client_limit_exceeded count_others is_active lookup time_sub
race_ends = refl

acts-Bounded_example : count_active second raced.server.last_seen ≤ 3
acts-Bounded_example =
    acts-Bounded sizes (λ a b. "") "v" false 2 0 door race refl refl (refl, tt)
      (unfold count_active time_sub in omega arith) race_fits race_ends

-- A way up the directories.
abbrev evil : List ℕ
evil = b'.' ∷ b'.' ∷ b'/' ∷ b'x' ∷ []

sanitize_device_id-IsSafeName_example :
    let id = sanitize_device_id (λ s. s) evil in
    IsSafeName id × IsSafeName (short_device_id id) × (length (short_device_id id) ≤ 4)
sanitize_device_id-IsSafeName_example = sanitize_device_id-IsSafeName (λ s. s) evil
