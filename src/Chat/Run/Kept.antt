-- ===== src/Chat/Run/Kept.antt =====
-- What a message leaves as it is: the devices and the state of the session; and how long the history
-- is.
use eqrcp.Base.{
  Option, Bool, none, some, ℕ, ◌-◌, ◌≤◌, ◌≡◌, refl, ◌∙◌, inl, inr, String, true, false, List, [],
  ◌∷◌, length, length-drop, take, drop, leb, arith, Bool-cases, Option-cases,
}
use eqrcp.Base.Int.{ℤ}
use eqrcp.Base.Clock.{Time}
use eqrcp.Base.Assoc.{lookup}
use eqrcp.Chat.{TextLibrary, ChatMessage, ChatSession}
use eqrcp.Chat.Messages.{
  max_chat_history, drop_attachment, drop_attachments, trim_history_locked, append_message,
  Recalled, missing, refused, dropped, marked, recall_in, finish_recall, recall_message,
}
use eqrcp.Chat.Progress.{
  change_first, finish_progress, update_upload_progress_message, update_download_progress_message,
}

abbrev pub IsSame : ChatSession → ChatSession → Type 0
IsSame s s' =
    (s'.clients ≡ s.clients) × (s'.kicked_clients ≡ s.kicked_clients) × (s'.state ≡ s.state)

drop_attachment-IsSame :
    (s : ChatSession) (m : ChatMessage)
    → IsSame s (drop_attachment s m) × ((drop_attachment s m).messages ≡ s.messages)
unfolding drop_attachment
drop_attachment-IsSame s m = elim (Option-cases (lookup m.id s.attachments)) [
  | inl e ↦ rw (e, drop_attachment) ((refl, refl, refl), refl)
  | inr (attachment, e) ↦ rw (e, drop_attachment) (ground arith)
]

drop_attachments-IsSame :
    (s : ChatSession) (ms : List ChatMessage)
    → IsSame s (drop_attachments s ms) × ((drop_attachments s ms).messages ≡ s.messages)
unfolding drop_attachments
drop_attachments-IsSame s [] = ((refl, refl, refl), refl)
drop_attachments-IsSame s (m ∷ ms) =
    let ((c, k, t), e) = drop_attachment-IsSame s m in
    let ((c', k', t'), e') = drop_attachments-IsSame (drop_attachment s m) ms in
    ((c' ∙ c, k' ∙ k, t' ∙ t), e' ∙ e)

module _ (s : ChatSession) where
  abbrev excess : ℕ
  excess = length s.messages - max_chat_history

  abbrev shortened : ChatSession
  shortened = record s { messages = drop excess s.messages }

  trim_short : leb (length s.messages) max_chat_history ≡ true → trim_history_locked s ≡ s
  unfolding trim_history_locked
  trim_short e = ground arith

  trim_long :
      leb (length s.messages) max_chat_history ≡ false
      → trim_history_locked s ≡ drop_attachments shortened (take excess s.messages)
  unfolding trim_history_locked
  trim_long e = ground arith

  trim_history_locked-IsSame :
      IsSame s (trim_history_locked s)
      × (length (trim_history_locked s).messages ≤ max_chat_history)
  trim_history_locked-IsSame = elim (Bool-cases (leb (length s.messages) max_chat_history)) [
    | inl short ↦ rw (trim_short short) ((refl, refl, refl), ground arith)
    | inr long ↦
        let (same, messages) = drop_attachments-IsSame shortened (take excess s.messages) in
        rw (trim_long long) (same, rw messages (rw (length-drop excess s.messages) (omega arith)))
  ]

module _ (x : TextLibrary) where
  pub append_message-IsSame :
      (s : ChatSession) (m : ChatMessage) (now : Time) → IsSame s (append_message x s m now).0
  unfolding append_message
  append_message-IsSame s m now = (trim_history_locked-IsSame _).0

  pub length-append_message :
      (s : ChatSession) (m : ChatMessage) (now : Time)
      → length (append_message x s m now).0.messages ≤ max_chat_history
  unfolding append_message
  length-append_message s m now = (trim_history_locked-IsSame _).1

  length-recall_in :
      (ms : List ChatMessage) (id sender token : String) (next : ℤ)
      → length (recall_in x ms id sender token next).0 ≤ length ms
  unfolding recall_in
  length-recall_in [] id sender token next = omega arith
  length-recall_in (m ∷ ms) id sender token next =
      ground (arith, length-recall_in ms id sender token next)

  finish_recall-IsSame :
      (s : ChatSession) (next : ℤ) (now : Time) (ms : List ChatMessage) (result : Recalled x)
      → length ms ≤ length s.messages
      → IsSame s (finish_recall x s next now (ms, result)).0
        × (length (finish_recall x s next now (ms, result)).0.messages ≤ length s.messages)
  unfolding finish_recall
  finish_recall-IsSame s next now ms missing h = ((refl, refl, refl), omega arith)
  finish_recall-IsSame s next now ms refused h = ((refl, refl, refl), omega arith)
  finish_recall-IsSame s next now ms (dropped m) h = ((refl, refl, refl), h)
  finish_recall-IsSame s next now ms (marked m) h = ((drop_attachment-IsSame s m).0, h)

  pub recall_message-IsSame :
      (s : ChatSession) (id sender token : String) (now : Time)
      → IsSame s (recall_message x s id sender token now).0
        × (length (recall_message x s id sender token now).0.messages ≤ length s.messages)
  unfolding recall_message
  recall_message-IsSame s id sender token now =
      finish_recall-IsSame s _ now _ _ (length-recall_in s.messages id sender token _)

finish_progress-IsSame :
    (s : ChatSession) (next progress : ℤ) (now : Time) (ms : List ChatMessage)
    (found : Option ChatMessage)
    → length ms ≡ length s.messages
    → IsSame s (finish_progress s next progress now (ms, found)).0
      × (length (finish_progress s next progress now (ms, found)).0.messages ≡ length s.messages)
unfolding finish_progress
finish_progress-IsSame s next progress now ms none h = ((refl, refl, refl), refl)
finish_progress-IsSame s next progress now ms (some m) h = ground (arith, h)

length-change_first :
    (ms : List ChatMessage) (id : String) (f : ChatMessage → ChatMessage)
    → length (change_first ms id f).0 ≡ length ms
unfolding change_first
length-change_first [] id f = refl
length-change_first (m ∷ ms) id f = ground (arith, length-change_first ms id f)

pub upload-IsSame :
    (s : ChatSession) (id : String) (progress : ℤ) (now : Time)
    → IsSame s (update_upload_progress_message s id progress now).0
      × (length (update_upload_progress_message s id progress now).0.messages ≡ length s.messages)
unfolding update_upload_progress_message
upload-IsSame s id progress now =
    finish_progress-IsSame s _ progress now _ _ (length-change_first s.messages id _)

pub download-IsSame :
    (s : ChatSession) (id : String) (receiving : Bool) (progress : ℤ) (now : Time)
    → IsSame s (update_download_progress_message s id receiving progress now).0
      × (length (update_download_progress_message s id receiving progress now).0.messages
          ≡ length s.messages)
unfolding update_download_progress_message
download-IsSame s id receiving progress now =
    finish_progress-IsSame s _ progress now _ _ (length-change_first s.messages id _)
