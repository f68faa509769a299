-- ===== src/Chat/Progress.antt =====
-- pkg/server/chat.go: `updateUploadProgressMessage` and `updateDownloadProgressMessage`.
use eqrcp.Base.{String, Bool, ◌||◌, List, [], ◌∷◌, Option, none, some, ◌*◌, ◌=ₛ◌, if◌then◌else◌}
use eqrcp.Base.Int.{ℤ, pos, leb_ℤ, eqb_ℤ}
use eqrcp.Base.Int64.{add64}
use eqrcp.Base.Clock.{Time, time_sub, millisecond}
use eqrcp.Chat.{ChatMessage, ChatSession, ChatStatusSnapshot}
use eqrcp.Chat.Messages.{status_snapshot_locked}

-- The first message of this id is changed.
unfoldable pub change_first :
    List ChatMessage → String → (ChatMessage → ChatMessage) → List ChatMessage × Option ChatMessage
change_first [] id f = ([], none)
change_first (m ∷ ms) id f =
    let (rest, found) = change_first ms id f in
    if m.id =ₛ id then (f m ∷ ms, some (f m)) else (m ∷ rest, found)

unfoldable pub finish_progress :
    ChatSession
    → (next progress : ℤ) → Time
    → List ChatMessage × Option ChatMessage
    → ChatSession × Option ChatMessage × Option ChatStatusSnapshot
finish_progress s next progress now (messages, none) = (s, none, none)
finish_progress s next progress now (messages, some m) =
    let s' = record s { messages = messages; event_seq = next; last_activity = now } in
    let reported = record s' { last_progress_hook_time = now } in
    let due =
      leb_ℤ (pos (150 * millisecond)) (time_sub now s.last_progress_hook_time)
      || eqb_ℤ progress (pos 100) in
    if due
    then (reported, some m, some (status_snapshot_locked reported "").1)
    else (s', some m, none)

unfoldable pub update_upload_progress_message :
    ChatSession
    → (temp_id : String) → (progress : ℤ) → Time
    → ChatSession × Option ChatMessage × Option ChatStatusSnapshot
update_upload_progress_message s temp_id progress now =
    let next = add64 s.event_seq (pos 1) in
    finish_progress s next progress now
      (change_first s.messages temp_id (λ m. record m { progress = progress; seq = next }))

unfoldable pub update_download_progress_message :
    ChatSession
    → (message_id : String) → (receiving : Bool) → (progress : ℤ) → Time
    → ChatSession × Option ChatMessage × Option ChatStatusSnapshot
update_download_progress_message s message_id receiving progress now =
    let next = add64 s.event_seq (pos 1) in
    finish_progress s next progress now (
      change_first s.messages message_id
        (λ m. record m { receiving = receiving; progress = progress; seq = next }))
