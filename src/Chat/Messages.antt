-- ===== src/Chat/Messages.antt =====
-- pkg/server/chat.go: the messages of a chatSession and the snapshots of its status.
use eqrcp.Base.{
  ℕ, ◌-◌, String, Bool, true, false, not, ◌&&◌, ◌||◌, List, [], ◌∷◌, ◌++◌, Option, none, some,
  length, take, drop, leb, ◌=ₛ◌, if◌then◌else◌,
}
use eqrcp.Base.Int.{ℤ, pos, ltb_ℤ}
use eqrcp.Base.Int64.{add64, mul64, quot64}
use eqrcp.Base.Clock.{Time}
use eqrcp.Base.Assoc.{lookup, erase}
use eqrcp.Chat.{
  TextLibrary, ChatMessage, ChatClient, ChatSession, ChatActiveTransfer, ChatStatusSnapshot,
  is_terminal_chat_state,
}

abbrev pub max_chat_history : ℕ
max_chat_history = 200

-- The attachment of a message that is dropped goes with its file.
unfoldable pub drop_attachment : ChatSession → ChatMessage → ChatSession
drop_attachment s m = elim (lookup m.id s.attachments) [
  | none ↦ s
  | some attachment ↦
      let rest = erase m.id s.attachments in
      if m.url =ₛ ""
      then s
      else if attachment.path =ₛ ""
      then record s { attachments = rest }
      else record s { attachments = rest; removed = attachment.path ∷ s.removed }
]

unfoldable pub drop_attachments : ChatSession → List ChatMessage → ChatSession
drop_attachments s [] = s
drop_attachments s (m ∷ ms) = drop_attachments (drop_attachment s m) ms

unfoldable pub trim_history_locked : ChatSession → ChatSession
trim_history_locked s =
    let excess = length s.messages - max_chat_history in
    if leb (length s.messages) max_chat_history
    then s
    else drop_attachments (record s { messages = drop excess s.messages }) (take excess s.messages)

abbrev bytes_done : ChatMessage → ℤ
bytes_done m =
    if ltb_ℤ (pos 0) m.size && ltb_ℤ (pos 0) m.progress
    then quot64 (mul64 m.size m.progress) (pos 100)
    else pos 0

unfoldable pub active_transfers : List ChatMessage → List ChatActiveTransfer
active_transfers [] = []
active_transfers (m ∷ ms) =
    let rest = active_transfers ms in
    let row : ChatActiveTransfer = record {
      id = m.id;
      file_name = m.file_name;
      sender = m.sender;
      size = m.size;
      bytes_done = bytes_done m;
      percent = m.progress;
    } in
    if (m.sending || m.receiving) && not (m.file_name =ₛ "") then row ∷ rest else rest

unfoldable pub status_snapshot_locked : ChatSession → String → ChatSession × ChatStatusSnapshot
status_snapshot_locked s state =
    let s' = record s {
      state = if not (state =ₛ "") && not (is_terminal_chat_state s.state) then state else s.state;
      status_seq = if state =ₛ "" then s.status_seq else add64 s.status_seq (pos 1);
    } in
    (
      s',
      record {
        state = s'.state;
        message_count = pos (length s.messages);
        device_count = pos (length s.clients);
        started_at = s.started_at;
        last_activity = s.last_activity;
        seq = s'.status_seq;
        active_transfers = active_transfers s.messages;
      },
    )

-- `end` reports at most once.
unfoldable pub end : ChatSession → String → ChatSession × Option ChatStatusSnapshot
end s state =
    let (s', snapshot) = status_snapshot_locked s (if state =ₛ "" then "stopped" else state) in
    if is_terminal_chat_state s.state then (s, none) else (s', some snapshot)

module _ (x : TextLibrary) where
  -- The message with its id and numbers, at the end of the history.
  unfoldable pub append_message : ChatSession → ChatMessage → Time → ChatSession × ChatMessage
  append_message s m now =
      let number = add64 s.next_id (pos 1) in
      let unnamed = m.id =ₛ "" in
      let next = add64 s.event_seq (pos 1) in
      let message = record m {
        id = if unnamed then x.message_id now number else m.id;
        created_at = now;
        seq = next;
        created_seq = next;
      } in
      let s' = trim_history_locked (record s {
        messages = s.messages ++ message ∷ [];
        next_id = if unnamed then number else s.next_id;
        event_seq = next;
      }) in
      (record s' { last_activity = now }, message)

  abbrev pub system_message : String → ChatMessage
  system_message text = record {
    id = "";
    sender = "system";
    avatar = "";
    kind = "system";
    text = text;
    recalled = false;
    file_name = "";
    size = pos 0;
    mime_type = "";
    url = "";
    theme = "";
    created_at = 0;
    seq = pos 0;
    created_seq = pos 0;
    owner_token = "";
    sender_id = "";
    sending = false;
    progress = pos 0;
    receiving = false;
  }

  unfoldable pub add_system_message_locked : ChatSession → String → Time → ChatSession
  add_system_message_locked s text now = (append_message s (system_message text) now).0

  abbrev pub from_client : Option ChatClient → ChatMessage → ChatMessage
  from_client none m = m
  from_client (some c) m = record m {
    sender = c.label;
    sender_id = c.id;
    avatar = if c.avatar =ₛ "" then m.avatar else c.avatar;
  }

  unfoldable pub add_message_with_status :
      ChatSession → ChatMessage → (status_state : String) → Time → ChatSession × ChatMessage
  add_message_with_status s m status_state now =
      let (s', message) = append_message s (from_client (lookup m.owner_token s.clients) m) now in
      let reported = (status_snapshot_locked s' status_state).0 in
      (if status_state =ₛ "" then s' else reported, message)

-- `messagesAfterSeq`.
unfoldable pub messages_after_seq : List ChatMessage → (join_seq after_seq : ℤ) → List ChatMessage
messages_after_seq [] join_seq after_seq = []
messages_after_seq (m ∷ ms) join_seq after_seq =
    let rest = messages_after_seq ms join_seq after_seq in
    let floor_join = if ltb_ℤ join_seq (pos 0) then pos 0 else join_seq in
    let floor_after = if ltb_ℤ after_seq (pos 0) then pos 0 else after_seq in
    if ltb_ℤ floor_after m.seq && ltb_ℤ floor_join m.created_seq then m ∷ rest else rest

module _ (x : TextLibrary) where
  -- Whether the caller may recall this message.
  unfoldable pub may_recall : ChatMessage → (sender token : String) → Bool
  may_recall m sender token =
      if not (m.owner_token =ₛ "")
      then x.trim_space token =ₛ m.owner_token
      else sender =ₛ "" || m.sender =ₛ sender

  abbrev pub blank : ChatMessage → ℤ → ChatMessage
  blank m next =
      let marked = record m { recalled = true; seq = next } in
      if m.url =ₛ ""
      then marked
      else record marked { url = ""; file_name = ""; size = pos 0; mime_type = "" }

  -- The messages after a recall, with how it ended: no message, refused, dropped while it was being
  -- sent, or marked.
  pub data Recalled : Type 0 where
    missing refused : Recalled
    dropped marked : ChatMessage → Recalled

  unfoldable pub recall_in :
      List ChatMessage → (id sender token : String) → ℤ → List ChatMessage × Recalled
  recall_in [] id sender token next = ([], missing)
  recall_in (m ∷ ms) id sender token next =
      let (rest, result) = recall_in ms id sender token next in
      if not (m.id =ₛ id)
      then (m ∷ rest, result)
      else if not (may_recall m sender token)
      then (m ∷ ms, refused)
      else if m.sending
      then (ms, dropped m)
      else (blank m next ∷ ms, marked m)

  unfoldable pub finish_recall :
      ChatSession → ℤ → Time → List ChatMessage × Recalled → ChatSession × Recalled
  finish_recall s next now (messages, missing) = (s, missing)
  finish_recall s next now (messages, refused) = (s, refused)
  finish_recall s next now (messages, dropped m) =
      (record s { messages = messages; last_activity = now }, dropped m)
  finish_recall s next now (messages, marked m) = (
    record (drop_attachment s m) { messages = messages; event_seq = next; last_activity = now },
    marked (blank m next),
  )

  unfoldable pub recall_message :
      ChatSession → (id sender token : String) → Time → ChatSession × Recalled
  recall_message s id sender token now =
      let next = add64 s.event_seq (pos 1) in
      finish_recall s next now (recall_in s.messages id sender token next)
