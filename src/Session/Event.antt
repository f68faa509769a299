-- ===== src/Session/Event.antt =====
-- pkg/chat/v2/protocol/events.go: messages and event envelopes. A `*Message` is the address of a
-- message on the heap that the store keeps, so that events which share a message share its changes.
use eqrcp.Base.{ℕ, String, Bool, Option}
use eqrcp.Base.Int.{ℤ}
use eqrcp.Base.Clock.{Time}
use eqrcp.Transfer.Job.{TransferEvent}
use mathlib.Core.List.{List}

pub data EventType : Type 0 where
  message_added message_recalled message_updated presence_changed history_page : EventType
  transfer_event : EventType

pub data MessageType : Type 0 where
  text file image video audio system : MessageType

abbrev pub is_file : MessageType → Bool
is_file file = Bool.true
is_file _ = Bool.false

pub record Message : Type 0 where
  pub id : String
  pub sender_id : String
  pub sender : String
  pub old_sender : String
  pub avatar : String
  pub theme : String
  pub message_type : MessageType
  pub text : String
  pub file_name : String
  pub size : ℤ
  pub mime_type : String
  pub url : String
  pub file_path : String
  pub recalled : Bool
  pub downloaded : Bool
  pub uploading : Bool
  pub created_at : Time

pub record Device : Type 0 where
  pub id : String
  pub label : String
  pub avatar : String
  pub theme : String
  pub peer : String
  pub last_seen : Time

pub record HistoryPage : Type 0 where
  pub has_more : Bool
  pub oldest_seq : ℤ
  pub newest_seq : ℤ
  pub count : ℤ

pub record EventEnvelope : Type 0 where
  pub event_type : EventType
  pub seq : ℤ
  pub time : Time
  pub command_id : String
  pub message : Option ℕ
  pub presence : Option (List Device)
  pub transfer : Option TransferEvent
  pub history : Option HistoryPage
