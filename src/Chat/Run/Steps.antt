-- ===== src/Chat/Run/Steps.antt =====
-- Every call on a chatSession of pkg/server/chat.go gives the messages that it adds or changes the next
-- number.
use eqrcp.Base.{
  ℕ, ◌≡◌, refl, subst, sym, inl, inr, String, ◌∷◌, arith, Bool-cases, Option-cases, ◌=ₛ◌,
}
use eqrcp.Base.Clock.{Time}
use eqrcp.Base.Assoc.{lookup, insert, erase}
use eqrcp.Chat.{TextLibrary, ChatClient, ChatMessage, ChatSession, text_or_empty}
use eqrcp.Chat.Messages.{
  status_snapshot_locked, end, append_message, system_message, from_client,
  add_system_message_locked, add_message_with_status, recall_in, recall_message,
}
use eqrcp.Chat.Progress.{update_upload_progress_message, update_download_progress_message}
use eqrcp.Chat.Devices.{
  Joining, client_key, seat_client, register_client_with_avatar, leave, find_kicked, add_text,
  force_offline, kick_client, kick_token, update_host_avatar,
}
use eqrcp.Chat.Themes.{chat_theme_for_client_locked}
use eqrcp.Chat.Run.{
  Call, registers, leaves, kicks, kicks_token, adds, adds_system, recalls, uploads, downloads,
  changes_avatar, reports, ends, step,
}
use eqrcp.Chat.Run.Kicked.{register_outcome}
use eqrcp.Chat.Run.Numbered.{
  next_seq, IsNumbered, IsNumbered-same, append_message-IsNumbered, finish_recall-IsNumbered,
  finish_progress-IsNumbered, recall_in-All, change_first-All,
}

reported-IsNumbered :
    (s u : ChatSession) (state : String)
    → IsNumbered s u
    → IsNumbered s (status_snapshot_locked u state).0
unfolding status_snapshot_locked
reported-IsNumbered s u state h = h

end-IsNumbered : (s : ChatSession) (state : String) → IsNumbered s (end s state).0
unfolding end status_snapshot_locked
end-IsNumbered s state = IsNumbered-same s (end s state).0 (ground arith)

leave-IsNumbered :
    (s : ChatSession) (client : String) (now : Time) → IsNumbered s (leave s client now).0
unfolding leave status_snapshot_locked
leave-IsNumbered s client now = IsNumbered-same s (leave s client now).0 (refl, refl)

module _ (x : TextLibrary) where
  add_message_with_status-IsNumbered :
      (s : ChatSession) (m : ChatMessage) (state : String) (now : Time)
      → IsNumbered s (add_message_with_status x s m state now).0
  unfolding add_message_with_status
  add_message_with_status-IsNumbered s m state now =
      let message = from_client x (lookup m.owner_token s.clients) m in
      let s' = (append_message x s message now).0 in
      let added = append_message-IsNumbered x s message now in
      elim (Bool-cases (state =ₛ "")) [
        | inl silent ↦ rw silent added
        | inr told ↦ rw told (reported-IsNumbered s s' state added)
      ]

  seat_client-same :
      (s : ChatSession) (j : Joining) (client : String) (draws : ℕ → String) (fresh : String)
      (now : Time)
      → let s' = seat_client x s j client draws fresh now in
        (s'.event_seq ≡ s.event_seq) × (s'.messages ≡ s.messages)
  unfolding seat_client chat_theme_for_client_locked
  seat_client-same s j client draws fresh now = ground arith

  register-IsNumbered :
      (s : ChatSession) (j : Joining) (draws : ℕ → String) (fresh : String) (now : Time)
      → IsNumbered s (register_client_with_avatar x s j draws fresh now).0
  register-IsNumbered s j draws fresh now =
      let client = client_key x j in
      elim (register_outcome x client s j draws fresh now) [
        | inl refusal ↦ subst (IsNumbered s) (sym refusal) (IsNumbered-same s s (refl, refl))
        | inr (_, (state, seated)) ↦
            let s' = seat_client x s j client draws fresh now in
            subst (IsNumbered s) (sym seated) (
              reported-IsNumbered s s' state
                (IsNumbered-same s s' (seat_client-same s j client draws fresh now)))
      ]

  force_offline-IsNumbered :
      (s : ChatSession) (key : String) (c : ChatClient) (now : Time)
      → IsNumbered s (force_offline x s key c now).0
  unfolding force_offline add_system_message_locked
  force_offline-IsNumbered s key c now =
      let s' = record s {
        kicked_clients = key ∷ s.kicked_clients;
        kicked_joins = add_text (text_or_empty (lookup key s.client_theme_joins)) s.kicked_joins;
        clients = erase key s.clients;
        client_ids = erase key s.client_ids;
      } in
      let message = system_message x (x.concat c.label " was forced offline.") in
      let s'' = (append_message x s' message now).0 in
      reported-IsNumbered s s'' s''.state (append_message-IsNumbered x s' message now)

  kick_client-IsNumbered :
      (s : ChatSession) (id : String) (now : Time) → IsNumbered s (kick_client x s id now).0
  unfolding kick_client
  kick_client-IsNumbered s id now = elim (Bool-cases (x.trim_space id =ₛ "")) [
    | inl empty ↦ rw empty (IsNumbered-same s s (refl, refl))
    | inr named ↦ elim (Option-cases (find_kicked s (x.trim_space id) s.clients)) [
      | inl none_found ↦ rw (none_found, kick_client) (rw named (IsNumbered-same s s (refl, refl)))
      | inr ((key, c), found) ↦
          rw (found, kick_client) (rw named (force_offline-IsNumbered s key c now))
    ]
  ]

  update_host_avatar-IsNumbered :
      (s : ChatSession) (key avatar : String) (now : Time)
      → IsNumbered s (update_host_avatar x s key avatar now)
  unfolding update_host_avatar add_system_message_locked
  update_host_avatar-IsNumbered s key avatar now = elim (Option-cases (lookup key s.clients)) [
    | inl e ↦ rw (e, update_host_avatar) (IsNumbered-same s s (refl, refl))
    | inr (c, e) ↦
        let s' = record s { clients = insert key (record c { avatar = avatar }) s.clients } in
        elim (Bool-cases (c.avatar =ₛ avatar)) [
          | inl same ↦ rw (e, update_host_avatar) (rw same (IsNumbered-same s s (refl, refl)))
          | inr new ↦
              rw (e, update_host_avatar)
                (rw new (append_message-IsNumbered x s' (system_message x "roster-update") now))
        ]
  ]

  pub step-IsNumbered :
      (call : Call) (now : Time) (s : ChatSession) → IsNumbered s (step x call now s)
  unfolding step recall_message update_upload_progress_message update_download_progress_message
  step-IsNumbered (registers j draws fresh) now s = register-IsNumbered s j draws fresh now
  step-IsNumbered (leaves client) now s = leave-IsNumbered s client now
  step-IsNumbered (kicks id) now s = kick_client-IsNumbered s id now
  step-IsNumbered (kicks_token key join) now s =
      IsNumbered-same s (kick_token x s key join) (unfold kick_token in ground arith)
  step-IsNumbered (adds m state) now s = add_message_with_status-IsNumbered s m state now
  step-IsNumbered (adds_system text) now s =
      add_message_with_status-IsNumbered s (system_message x text) "" now
  step-IsNumbered (recalls id sender key) now s =
      let (ms, result) = recall_in x s.messages id sender key (next_seq s) in
      finish_recall-IsNumbered x s now ms result
        (recall_in-All x s.messages id sender key (next_seq s))
  step-IsNumbered (uploads id progress) now s =
      finish_progress-IsNumbered s progress now _ _
        (change_first-All s.messages id _ (next_seq s) (λ m. refl))
  step-IsNumbered (downloads id receiving progress) now s =
      finish_progress-IsNumbered s progress now _ _
        (change_first-All s.messages id _ (next_seq s) (λ m. refl))
  step-IsNumbered (changes_avatar key avatar) now s = update_host_avatar-IsNumbered s key avatar now
  step-IsNumbered (reports state) now s =
      reported-IsNumbered s s state (IsNumbered-same s s (refl, refl))
  step-IsNumbered (ends state) now s = end-IsNumbered s state
