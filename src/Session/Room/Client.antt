-- ===== src/Session/Room/Client.antt =====
-- pkg/chat/v2/session: the records of client.go and session.go, and what the code calls of Go's
-- libraries.
use eqrcp.Base.{String, Bool, false, List, [], none}
use eqrcp.Base.Int.{ℤ}
use eqrcp.Base.Clock.{Time}
use eqrcp.Session.Event.{EventType, EventEnvelope, Device}
use eqrcp.Session.Store.{MessageStore, new_message_store}

pub record Client : Type 0 where
  pub id : String
  pub label : String
  pub avatar : String
  pub theme : String
  pub peer : String
  pub token : String
  pub join : String
  pub local_join : String
  pub last_seen : Time
  pub join_time : Time
  pub kicked : Bool

unfoldable pub to_device : Client → Device
to_device c = record {
  id = c.id;
  label = c.label;
  avatar = c.avatar;
  theme = c.theme;
  peer = c.peer;
  last_seen = c.last_seen;
}

-- `strings.TrimSpace`, `strings.EqualFold`, the concatenation that `fmt.Sprintf` makes, and
-- `sort.Slice` by `JoinTime`.
pub record Host : Type 0 where
  pub trim_space : String → String
  pub equal_fold : String → String → Bool
  pub concat : String → String → String
  pub sort_by_join_time : List Client → List Client

pub record Session : Type 0 where
  pub token : String
  pub clients : List (String × Client)
  pub store : MessageStore
  pub client_themes : List (String × String)
  pub client_theme_joins : List (String × String)
  pub attachments : List (String × String)
  pub disable_system_messages : Bool

unfoldable pub new_session : String → Session
unfolding new_message_store
new_session token = record {
  token = token;
  clients = [];
  store = new_message_store;
  client_themes = [];
  client_theme_joins = [];
  attachments = [];
  disable_system_messages = false;
}

pub data Effect : Type 0 where
  sends : (client_id : String) → EventEnvelope → Effect
  closes : (client_id reason : String) → Effect
  cleans_up : Effect

abbrev pub close_reason_replaced : String
close_reason_replaced = "replaced_by_peer"

abbrev pub close_reason : String
close_reason = "closing connection"

-- An envelope with the fields that every event has.
abbrev pub envelope : EventType → String → Time → EventEnvelope
envelope event_type command_id now = record {
  event_type = event_type;
  seq = ℤ.pos 0;
  time = now;
  command_id = command_id;
  message = none;
  presence = none;
  transfer = none;
  history = none;
}

unfoldable pub is_desktop_peer : Host → String → Bool
is_desktop_peer h peer = h.equal_fold (h.trim_space peer) "desktop"
