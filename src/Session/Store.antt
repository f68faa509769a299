-- ===== src/Session/Store.antt =====
-- pkg/chat/v2/session/message_store.go, with the heap that its message pointers lead to.
pub mod Numbering
pub mod Changes
use eqrcp.Base.{
  ℕ, zero, suc, String, Bool, true, false, not, ◌&&◌, ◌||◌, List, [], ◌∷◌, ◌++◌, Option, none, some,
  length, get_elem?, keep, ◌=ₛ◌, if◌then◌else◌,
}
use eqrcp.Base.Int.{ℤ, pos, ltb_ℤ}
use eqrcp.Base.Int64.{add64, sub64}
use eqrcp.Base.Clock.{Time, is_zero}
use eqrcp.Session.Event.{Message, EventEnvelope}

pub record MessageStore : Type 0 where
  pub events : List EventEnvelope
  pub next_seq : ℤ
  pub heap : List Message

unfoldable pub new_message_store : MessageStore
new_message_store = record { events = []; next_seq = pos 1; heap = [] }

-- `&Message{…}`: the address of a new message.
unfoldable pub allocate : MessageStore → Message → MessageStore × ℕ
allocate s msg = (record s { heap = s.heap ++ msg ∷ [] }, length s.heap)

-- The message at an address, and a change of it there.
abbrev pub deref : MessageStore → ℕ → Option Message
deref s a = get_elem? s.heap a

abbrev pub change : List Message → ℕ → (Message → Message) → List Message
change [] a f = []
change (x ∷ xs) zero f = f x ∷ xs
change (x ∷ xs) (suc a) f = x ∷ change xs a f

unfoldable pub add : MessageStore → EventEnvelope → Time → MessageStore × EventEnvelope
add s event now =
    let numbered = record event {
      seq = s.next_seq;
      time = if is_zero event.time then now else event.time;
    } in
    (record s { events = s.events ++ numbered ∷ []; next_seq = add64 s.next_seq (pos 1) }, numbered)

unfoldable pub get_since : MessageStore → ℤ → List EventEnvelope
get_since s after_seq = keep (λ e. ltb_ℤ after_seq e.seq) s.events

-- Whether the event's message is the one with this id.
abbrev pub is_about : List Message → String → EventEnvelope → Bool
is_about heap message_id e = elim e.message [
  | none ↦ false
  | some a ↦ elim (get_elem? heap a) [ none ↦ false | some msg ↦ msg.id =ₛ message_id ]
]

-- The address of the message with this id, from the first event that carries it.
unfoldable pub find_address : List Message → String → List EventEnvelope → Option ℕ
find_address heap message_id [] = none
find_address heap message_id (e ∷ es) =
    if is_about heap message_id e then e.message else find_address heap message_id es

unfoldable pub find : MessageStore → String → Option Message
find s message_id = elim (find_address s.heap message_id s.events) [
  | none ↦ none
  | some a ↦ deref s a
]

abbrev may_recall : String → Message → Bool
may_recall sender_id msg = sender_id =ₛ "" || msg.sender_id =ₛ sender_id

-- The store after the change, and the address of the message if it may be recalled.
unfoldable pub recall : MessageStore → String → String → MessageStore × Option ℕ
recall s message_id sender_id = elim (find_address s.heap message_id s.events) [
  | none ↦ (s, none)
  | some a ↦ elim (deref s a) [
    | none ↦ (s, none)
    | some msg ↦
        if may_recall sender_id msg
        then (record s { heap = change s.heap a (λ m. record m { recalled = true }) }, some a)
        else (s, none)
  ]
]

unfoldable pub current_seq : MessageStore → ℤ
current_seq s = sub64 s.next_seq (pos 1)

unfoldable pub mark_downloaded : MessageStore → String → MessageStore × Option ℕ
mark_downloaded s message_id = elim (find_address s.heap message_id s.events) [
  | none ↦ (s, none)
  | some a ↦ (record s { heap = change s.heap a (λ m. record m { downloaded = true }) }, some a)
]

unfoldable pub mark_upload_complete : MessageStore → String → MessageStore × Option ℕ
mark_upload_complete s message_id = elim (find_address s.heap message_id s.events) [
  | none ↦ (s, none)
  | some a ↦ (record s { heap = change s.heap a (λ m. record m { uploading = false }) }, some a)
]
