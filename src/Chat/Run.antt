-- ===== src/Chat/Run.antt =====
-- Sequences of calls on a chatSession of pkg/server/chat.go.
pub mod Kept
pub mod Kicked
pub mod Out
pub mod Offline
pub mod Ended
pub mod Numbered
pub mod Steps
pub mod Cursor
use eqrcp.Base.{ℕ, ◌≡◌, String, Bool, true, false, List, [], ◌∷◌, Option, none, some}
use eqrcp.Base.Clock.{Time}
use eqrcp.Chat.{TextLibrary, ChatMessage, ChatSession}
use eqrcp.Chat.Messages.{
  status_snapshot_locked, end, system_message, add_message_with_status, recall_message,
}
use eqrcp.Base.Int.{ℤ}
use eqrcp.Chat.Progress.{update_upload_progress_message, update_download_progress_message}
use eqrcp.Chat.Devices.{
  Joining, register_client_with_avatar, leave, kick_client, kick_token, update_host_avatar,
}

-- `leaves` is the function that a registration of this key returned, `reports` is `notifyStatus`.
pub data Call : Type 0 where
  registers : Joining → (draws : ℕ → String) → (fresh : String) → Call
  leaves : (client : String) → Call
  kicks : (id : String) → Call
  kicks_token : (token join : String) → Call
  adds : ChatMessage → (status_state : String) → Call
  adds_system : (text : String) → Call
  recalls : (id sender token : String) → Call
  uploads : (temp_id : String) → (progress : ℤ) → Call
  downloads : (message_id : String) → (receiving : Bool) → (progress : ℤ) → Call
  changes_avatar : (token avatar : String) → Call
  reports : (state : String) → Call
  ends : (state : String) → Call

module _ (x : TextLibrary) where
  unfoldable pub step : Call → Time → ChatSession → ChatSession
  step (registers j draws fresh) now s = (register_client_with_avatar x s j draws fresh now).0
  step (leaves client) now s = (leave s client now).0
  step (kicks id) now s = (kick_client x s id now).0
  step (kicks_token token join) now s = kick_token x s token join
  step (adds m status_state) now s = (add_message_with_status x s m status_state now).0
  step (adds_system text) now s = (add_message_with_status x s (system_message x text) "" now).0
  step (recalls id sender token) now s = (recall_message x s id sender token now).0
  step (uploads temp_id progress) now s = (update_upload_progress_message s temp_id progress now).0
  step (downloads message_id receiving progress) now s =
      (update_download_progress_message s message_id receiving progress now).0
  step (changes_avatar token avatar) now s = update_host_avatar x s token avatar now
  step (reports state) now s = (status_snapshot_locked s state).0
  step (ends state) now s = (end s state).0

  unfoldable pub run : List (Time × Call) → ChatSession → ChatSession
  run [] s = s
  run ((now, call) ∷ calls) s = run calls (step call now s)
