-- ===== src/Examples/Hosts.antt =====
-- pkg/server/chat.go at concrete inputs.
use eqrcp.Base.{refl, ◌⊎◌, inl, arith, ◌≡◌, true, false, List, [], ◌∷◌, some, ◌=ₛ◌, if◌then◌else◌}
use eqrcp.Base.Int.{pos, ◌+ℤ◌}
use eqrcp.Base.Clock.{Time}
use eqrcp.Chat.{TextLibrary, ChatClient, ChatMessage, ChatSession, is_terminal_chat_state}
use eqrcp.Chat.Messages.{
  system_message, messages_after_seq, add_message_with_status, append_message, trim_history_locked,
  end, status_snapshot_locked,
}
use eqrcp.Base.Assoc.{lookup}
use eqrcp.Base.Int64.{add64, wrap64}
use eqrcp.Chat.Devices.{Joining, kick_client}
use eqrcp.Chat.Run.{Call, registers, leaves, adds_system, ends, reports, step, run}
use eqrcp.Chat.Run.Kicked.{IsOut}
use eqrcp.Chat.Run.Offline.{Entry, IsWanted, Among, kick_client-IsOut_for_good}
use eqrcp.Chat.Run.Numbered.{In}
use eqrcp.Chat.Run.Cursor.{messages_after_seq_complete}
use eqrcp.Chat.Run.Ended.{IsKeeping, run-IsKeeping}

-- Texts without blanks.
abbrev pub plain : TextLibrary
plain = record {
  trim_space = λ s. s;
  join_fields = λ s. s;
  first_runes = λ n s. s;
  first_bytes = λ n s. s;
  equal_fold = λ s t. s =ₛ t;
  has_prefix = λ s p. s =ₛ "theme-7";
  trim_prefix = λ s p. "7";
  parse_int = λ s. some (pos 7);
  concat = λ s t. if s =ₛ "dev-" then t else s;
  message_id = λ now n. "m";
}

abbrev guest : ChatClient
guest = record {
  id = "a1";
  label = "Phone";
  avatar = "";
  count = pos 1;
  theme = "theme-7";
  last_seen = 1;
}

abbrev pub session : ChatSession
session = record {
  messages = [];
  attachments = [];
  clients = ("tok", guest) ∷ [];
  client_ids = ("tok", "a1") ∷ [];
  kicked_clients = [];
  kicked_joins = [];
  client_themes = ("tok", "theme-7") ∷ [];
  client_theme_joins = ("tok", "scan") ∷ [];
  next_id = pos 0;
  started_at = 1;
  last_activity = 1;
  state = "waiting";
  event_seq = pos 0;
  status_seq = pos 0;
  host_token = "host";
  last_progress_hook_time = 0;
  removed = [];
}

abbrev phone : Joining
phone = record {
  token = "tok";
  label = "Phone";
  avatar = "";
  peer = "";
  join = "scan";
  fallback = "";
}

-- The device tries to come back.
abbrev returns : List (Time × Call)
returns = (8, registers phone (λ i. "theme-7") "a2") ∷ (9, leaves "tok") ∷ []

kick_client-IsOut_for_good_example :
    let (s', done) = kick_client plain session "a1" 7 in
    (done ≡ true
      → (e : Entry) × IsWanted session "a1" e
        × Among e session.clients
        × IsOut e.0 (run plain returns s'))
    × (done ≡ false → s' ≡ session)
kick_client-IsOut_for_good_example = kick_client-IsOut_for_good plain session "a1" 7 returns

-- A message after the end.
abbrev late : List (Time × Call)
late = (8, ends "") ∷ (9, adds_system "late") ∷ (9, reports "active") ∷ []

run-IsKeeping_example : IsKeeping session (run plain late session)
run-IsKeeping_example = run-IsKeeping plain late session

abbrev hello : ChatMessage
hello = record (system_message plain "hello") {
  id = "m";
  created_at = 8;
  seq = pos 1;
  created_seq = pos 1;
}

-- A message, and the end of the session.
abbrev two : List (Time × Call)
two = (8, adds_system "hello") ∷ (9, ends "") ∷ []

messages_after_seq_complete_example :
    let ms = (run plain two session).messages in
    In hello [] ⊎ In hello (messages_after_seq ms (pos 0) (pos 0))
messages_after_seq_complete_example =
    messages_after_seq_complete plain two session 0 0 hello refl (omega arith)
      (unfold run step add_message_with_status append_message trim_history_locked end
          status_snapshot_locked is_terminal_chat_state lookup add64 wrap64 ◌+ℤ◌ in
        inl refl)
      refl
