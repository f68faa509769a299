-- ===== src/Chat/Run/Ended.antt =====
-- The state and the length of the history of a chatSession of pkg/server/chat.go, under any calls.
use eqrcp.Base.{
  ℕ, ◌≤◌, ◌≡◌, refl, ap, subst, ◌∙◌, sym, inl, inr, String, true, List, [], ◌∷◌, length, arith,
  Bool-cases, Option-cases, ◌=ₛ◌,
}
use eqrcp.Base.Clock.{Time}
use eqrcp.Base.Assoc.{lookup, insert, erase}
use eqrcp.Chat.{
  TextLibrary, ChatClient, ChatMessage, ChatSession, is_terminal_chat_state, text_or_empty,
}
use eqrcp.Chat.Messages.{
  max_chat_history, status_snapshot_locked, end, append_message, system_message, from_client,
  add_system_message_locked, add_message_with_status, recall_message,
}
use eqrcp.Chat.Devices.{
  Joining, client_key, seat_client, register_client_with_avatar, leave, find_kicked, add_text,
  force_offline, kick_client, kick_token, update_host_avatar,
}
use eqrcp.Chat.Themes.{chat_theme_for_client_locked}
use eqrcp.Chat.Run.{
  Call, registers, leaves, kicks, kicks_token, adds, adds_system, recalls, uploads, downloads,
  changes_avatar, reports, ends, step, run,
}
use eqrcp.Chat.Run.Kept.{
  append_message-IsSame, length-append_message, recall_message-IsSame, upload-IsSame,
  download-IsSame,
}
use eqrcp.Chat.Run.Kicked.{register_outcome}

-- A terminal state stays, and a history of at most 200 messages stays one.
abbrev pub IsKeeping : ChatSession → ChatSession → Type 0
IsKeeping s s' =
    (is_terminal_chat_state s.state ≡ true → s'.state ≡ s.state)
    × (length s.messages ≤ max_chat_history → length s'.messages ≤ max_chat_history)

IsKeeping-trans : (s t u : ChatSession) → IsKeeping s t → IsKeeping t u → IsKeeping s u
IsKeeping-trans s t u (a, b) (c, d) =
    (λ e. c (ap is_terminal_chat_state (a e) ∙ e) ∙ a e, λ h. d (b h))

-- A change of other fields.
abbrev SameChat : ChatSession → ChatSession → Type 0
SameChat s s' = (s'.state ≡ s.state) × (s'.messages ≡ s.messages)

IsKeeping-same : (s s' : ChatSession) → SameChat s s' → IsKeeping s s'
IsKeeping-same s s' (state, messages) =
    (λ e. state, λ h. subst (λ ms. length ms ≤ max_chat_history) (sym messages) h)

status_snapshot_locked-IsKeeping :
    (s : ChatSession) (state : String) → IsKeeping s (status_snapshot_locked s state).0
unfolding status_snapshot_locked
status_snapshot_locked-IsKeeping s state = (λ e. ground (arith, e), λ h. h)

end-IsKeeping : (s : ChatSession) (state : String) → IsKeeping s (end s state).0
unfolding end status_snapshot_locked
end-IsKeeping s state = (λ e. ground (arith, e), λ h. ground (arith, h))

leave-IsKeeping :
    (s : ChatSession) (client : String) (now : Time) → IsKeeping s (leave s client now).0
unfolding leave status_snapshot_locked
leave-IsKeeping s client now = (λ e. ground (arith, e), λ h. h)

module _ (x : TextLibrary) where
  append_message-IsKeeping :
      (s : ChatSession) (m : ChatMessage) (now : Time) → IsKeeping s (append_message x s m now).0
  append_message-IsKeeping s m now =
      let (_, _, state) = append_message-IsSame x s m now in
      (λ e. state, λ h. length-append_message x s m now)

  add_system_message_locked-IsKeeping :
      (s : ChatSession) (text : String) (now : Time)
      → IsKeeping s (add_system_message_locked x s text now)
  unfolding add_system_message_locked
  add_system_message_locked-IsKeeping s text now =
      append_message-IsKeeping s (system_message x text) now

  add_message_with_status-IsKeeping :
      (s : ChatSession) (m : ChatMessage) (state : String) (now : Time)
      → IsKeeping s (add_message_with_status x s m state now).0
  unfolding add_message_with_status
  add_message_with_status-IsKeeping s m state now =
      let message = from_client x (lookup m.owner_token s.clients) m in
      let s' = (append_message x s message now).0 in
      let added = append_message-IsKeeping s message now in
      elim (Bool-cases (state =ₛ "")) [
        | inl silent ↦ rw silent added
        | inr told ↦ rw told (
            IsKeeping-trans s s' (status_snapshot_locked s' state).0 added
              (status_snapshot_locked-IsKeeping s' state))
      ]

  seat_client-SameChat :
      (s : ChatSession) (j : Joining) (client : String) (draws : ℕ → String) (fresh : String)
      (now : Time)
      → SameChat s (seat_client x s j client draws fresh now)
  unfolding seat_client chat_theme_for_client_locked
  seat_client-SameChat s j client draws fresh now = ground arith

  register-IsKeeping :
      (s : ChatSession) (j : Joining) (draws : ℕ → String) (fresh : String) (now : Time)
      → IsKeeping s (register_client_with_avatar x s j draws fresh now).0
  register-IsKeeping s j draws fresh now =
      elim (register_outcome x (client_key x j) s j draws fresh now) [
        | inl refused ↦ subst (IsKeeping s) (sym refused) (λ e. refl, λ h. h)
        | inr (_, (state, seated)) ↦
            let s' = seat_client x s j (client_key x j) draws fresh now in
            subst (IsKeeping s) (sym seated) (
              IsKeeping-trans s s' (status_snapshot_locked s' state).0
                (IsKeeping-same s s' (seat_client-SameChat s j (client_key x j) draws fresh now))
                (status_snapshot_locked-IsKeeping s' state))
      ]

  force_offline-IsKeeping :
      (s : ChatSession) (key : String) (c : ChatClient) (now : Time)
      → IsKeeping s (force_offline x s key c now).0
  unfolding force_offline
  force_offline-IsKeeping s key c now =
      let s' = record s {
        kicked_clients = key ∷ s.kicked_clients;
        kicked_joins = add_text (text_or_empty (lookup key s.client_theme_joins)) s.kicked_joins;
        clients = erase key s.clients;
        client_ids = erase key s.client_ids;
      } in
      let text = x.concat c.label " was forced offline." in
      let s'' = add_system_message_locked x s' text now in
      IsKeeping-trans s s'' (status_snapshot_locked s'' s''.state).0
        (add_system_message_locked-IsKeeping s' text now)
        (status_snapshot_locked-IsKeeping s'' s''.state)

  kick_client-IsKeeping :
      (s : ChatSession) (id : String) (now : Time) → IsKeeping s (kick_client x s id now).0
  unfolding kick_client
  kick_client-IsKeeping s id now = elim (Bool-cases (x.trim_space id =ₛ "")) [
    | inl empty ↦ rw empty (λ e. refl, λ h. h)
    | inr named ↦ elim (Option-cases (find_kicked s (x.trim_space id) s.clients)) [
      | inl missing ↦ rw (missing, kick_client) (rw named (λ e. refl, λ h. h))
      | inr ((key, c), found) ↦
          rw (found, kick_client) (rw named (force_offline-IsKeeping s key c now))
    ]
  ]

  update_host_avatar-IsKeeping :
      (s : ChatSession) (key avatar : String) (now : Time)
      → IsKeeping s (update_host_avatar x s key avatar now)
  unfolding update_host_avatar
  update_host_avatar-IsKeeping s key avatar now = elim (Option-cases (lookup key s.clients)) [
    | inl e ↦ rw (e, update_host_avatar) (λ e. refl, λ h. h)
    | inr (c, e) ↦
        let s' = record s { clients = insert key (record c { avatar = avatar }) s.clients } in
        elim (Bool-cases (c.avatar =ₛ avatar)) [
          | inl same ↦ rw (e, update_host_avatar) (rw same (λ e. refl, λ h. h))
          | inr new ↦
              rw (e, update_host_avatar)
                (rw new (add_system_message_locked-IsKeeping s' "roster-update" now))
        ]
  ]

  kick_token-IsKeeping :
      (s : ChatSession) (key join : String) → IsKeeping s (kick_token x s key join)
  unfolding kick_token
  kick_token-IsKeeping s key join = IsKeeping-same s (kick_token x s key join) (ground arith)

  recall_message-IsKeeping :
      (s : ChatSession) (id sender token : String) (now : Time)
      → IsKeeping s (recall_message x s id sender token now).0
  recall_message-IsKeeping s id sender token now =
      let ((_, _, state), fewer) = recall_message-IsSame x s id sender token now in
      (λ e. state, λ h. omega (arith, fewer, h))

  step-IsKeeping : (call : Call) (now : Time) (s : ChatSession) → IsKeeping s (step x call now s)
  unfolding step
  step-IsKeeping (registers j draws fresh) now s = register-IsKeeping s j draws fresh now
  step-IsKeeping (leaves client) now s = leave-IsKeeping s client now
  step-IsKeeping (kicks id) now s = kick_client-IsKeeping s id now
  step-IsKeeping (kicks_token key join) now s = kick_token-IsKeeping s key join
  step-IsKeeping (adds m state) now s = add_message_with_status-IsKeeping s m state now
  step-IsKeeping (adds_system text) now s =
      add_message_with_status-IsKeeping s (system_message x text) "" now
  step-IsKeeping (recalls id sender key) now s = recall_message-IsKeeping s id sender key now
  step-IsKeeping (uploads id progress) now s =
      let ((_, _, state), same) = upload-IsSame s id progress now in
      (λ e. state, λ h. omega (arith, same, h))
  step-IsKeeping (downloads id receiving progress) now s =
      let ((_, _, state), same) = download-IsSame s id receiving progress now in
      (λ e. state, λ h. omega (arith, same, h))
  step-IsKeeping (changes_avatar key avatar) now s = update_host_avatar-IsKeeping s key avatar now
  step-IsKeeping (reports state) now s = status_snapshot_locked-IsKeeping s state
  step-IsKeeping (ends state) now s = end-IsKeeping s state

  -- The history holds at most 200 messages after any calls, and once the session has ended its state
  -- stays the one it ended with.
  pub run-IsKeeping : (calls : List (Time × Call)) (s : ChatSession) → IsKeeping s (run x calls s)
  unfolding run
  run-IsKeeping [] s = (λ e. refl, λ h. h)
  run-IsKeeping ((now, call) ∷ calls) s =
      IsKeeping-trans s (step x call now s) (run x calls (step x call now s))
        (step-IsKeeping call now s) (run-IsKeeping calls (step x call now s))
