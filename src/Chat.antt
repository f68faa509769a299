-- ===== src/Chat.antt =====
-- pkg/server/chat.go: `chatSession`, the chat that the computer hosts. The pictures' measures of a
-- message and the wake-ups of the event streams are left out.
pub mod Messages
pub mod Progress
pub mod Themes
pub mod Devices
pub mod Run
use eqrcp.Base.{String, Bool, true, false, ◌||◌, List, Option, none, some, ◌=ₛ◌, if◌then◌else◌}
use eqrcp.Base.Int.{ℤ, pos}
use eqrcp.Base.Clock.{Time}

-- The functions on texts: strings.TrimSpace, strings.Fields joined by spaces, the first runes or bytes
-- of a text (all, if it has no more), strings.EqualFold, strings.HasPrefix and strings.TrimPrefix,
-- strconv.ParseInt in base 10, and the id that is made of the time and a number.
pub record TextLibrary : Type 0 where
  pub trim_space : String → String
  pub join_fields : String → String
  pub first_runes : ℤ → String → String
  pub first_bytes : ℤ → String → String
  pub equal_fold : String → String → Bool
  pub has_prefix : (s prefix : String) → Bool
  pub trim_prefix : (s prefix : String) → String
  pub parse_int : String → Option ℤ
  pub concat : String → String → String
  pub message_id : Time → ℤ → String

pub record ChatMessage : Type 0 where
  pub id : String
  pub sender : String
  pub avatar : String
  pub kind : String
  pub text : String
  pub recalled : Bool
  pub file_name : String
  pub size : ℤ
  pub mime_type : String
  pub url : String
  pub theme : String
  pub created_at : Time
  pub seq : ℤ
  pub created_seq : ℤ
  pub owner_token : String
  pub sender_id : String
  pub sending : Bool
  pub progress : ℤ
  pub receiving : Bool

pub record ChatAttachment : Type 0 where
  pub id : String
  pub path : String
  pub file_name : String
  pub size : ℤ
  pub mime_type : String

pub record ChatClient : Type 0 where
  pub id : String
  pub label : String
  pub avatar : String
  pub count : ℤ
  pub theme : String
  pub last_seen : Time

-- `removed` are the files that were removed, the last first. A set is a map to the unit.
pub record ChatSession : Type 0 where
  pub messages : List ChatMessage
  pub attachments : List (String × ChatAttachment)
  pub clients : List (String × ChatClient)
  pub client_ids : List (String × String)
  pub kicked_clients : List String
  pub kicked_joins : List String
  pub client_themes : List (String × String)
  pub client_theme_joins : List (String × String)
  pub next_id : ℤ
  pub started_at : Time
  pub last_activity : Time
  pub state : String
  pub event_seq : ℤ
  pub status_seq : ℤ
  pub host_token : String
  pub last_progress_hook_time : Time
  pub removed : List String

pub record ChatActiveTransfer : Type 0 where
  pub id : String
  pub file_name : String
  pub sender : String
  pub size : ℤ
  pub bytes_done : ℤ
  pub percent : ℤ

pub record ChatStatusSnapshot : Type 0 where
  pub state : String
  pub message_count : ℤ
  pub device_count : ℤ
  pub started_at : Time
  pub last_activity : Time
  pub seq : ℤ
  pub active_transfers : List ChatActiveTransfer

unfoldable pub is_terminal_chat_state : String → Bool
is_terminal_chat_state state =
    state =ₛ "ended" || (state =ₛ "stopped" || (state =ₛ "failed" || state =ₛ "replaced"))

abbrev pub text_or_empty : Option String → String
text_or_empty none = ""
text_or_empty (some s) = s
