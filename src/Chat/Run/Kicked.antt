-- ===== src/Chat/Run/Kicked.antt =====
-- What the operations of a chatSession of pkg/server/chat.go do to a device that was forced offline.
use eqrcp.Base.{
  ℕ, ◌≡◌, refl, ap, subst, ◌⊎◌, ◌∙◌, sym, inl, inr, String, true, false, not, ◌&&◌, ◌∷◌, none,
  arith, eq_iff, Bool-cases, ◌=ₛ◌,
}
use eqrcp.Base.Int.{pos, leb_ℤ}
use eqrcp.Base.Clock.{Time}
use eqrcp.Base.Distinct.{has}
use eqrcp.Base.Assoc.{lookup, erase, lookup-insert, lookup-erase}
use eqrcp.Chat.{TextLibrary, ChatClient, ChatMessage, ChatSession, text_or_empty}
use eqrcp.Chat.Messages.{
  status_snapshot_locked, append_message, system_message, add_system_message_locked,
  add_message_with_status, from_client,
}
use eqrcp.Chat.Devices.{
  Joining, client_key, seat_client, register_client_with_avatar, leave, joined_state,
  client_or_none, force_offline, kick_token, add_text,
}
use eqrcp.Chat.Themes.{chat_theme_for_client_locked}
use eqrcp.Chat.Run.Kept.{IsSame, append_message-IsSame}

-- The device is marked as kicked and is none of the clients.
abbrev pub IsOut : String → ChatSession → Type 0
IsOut token s = (has token s.kicked_clients ≡ true) × (lookup token s.clients ≡ none)

pub IsOut-IsSame :
    (token : String) (s s' : ChatSession) → IsSame s s' → IsOut token s → IsOut token s'
IsOut-IsSame token s s' (clients, kicked, _) (h, k) =
    (ap (has token) kicked ∙ h, ap (lookup token) clients ∙ k)

module _ (x : TextLibrary) (token : String) where
  pub add_system_message_locked-IsOut :
      (s : ChatSession) (text : String) (now : Time)
      → IsOut token s
      → IsOut token (add_system_message_locked x s text now)
  unfolding add_system_message_locked
  add_system_message_locked-IsOut s text now out =
      IsOut-IsSame token s (append_message x s (system_message x text) now).0
        (append_message-IsSame x s (system_message x text) now) out

  pub status_snapshot_locked-IsOut :
      (s : ChatSession) (state : String)
      → IsOut token s
      → IsOut token (status_snapshot_locked s state).0
  unfolding status_snapshot_locked
  status_snapshot_locked-IsOut s state out = out

  pub add_message_with_status-IsOut :
      (s : ChatSession) (m : ChatMessage) (state : String) (now : Time)
      → IsOut token s
      → IsOut token (add_message_with_status x s m state now).0
  unfolding add_message_with_status
  add_message_with_status-IsOut s m state now out =
      let message = from_client x (lookup m.owner_token s.clients) m in
      let after =
        IsOut-IsSame token s (append_message x s message now).0
          (append_message-IsSame x s message now) out in
      elim (Bool-cases (state =ₛ "")) [
        | inl silent ↦ rw silent after
        | inr told ↦
            rw told (status_snapshot_locked-IsOut (append_message x s message now).0 state after)
      ]

  chat_theme-IsOut :
      (s : ChatSession) (client peer join : String) (draws : ℕ → String)
      → let s' = (chat_theme_for_client_locked x s client peer join draws).0 in
        (s'.clients ≡ s.clients) × (s'.kicked_clients ≡ s.kicked_clients)
  unfolding chat_theme_for_client_locked
  chat_theme-IsOut s client peer join draws = ground arith

  seat_client-IsOut :
      (s : ChatSession) (j : Joining) (client : String) (draws : ℕ → String) (fresh : String)
      (now : Time)
      → (client =ₛ token) ≡ false
      → IsOut token s
      → IsOut token (seat_client x s j client draws fresh now)
  unfolding seat_client
  seat_client-IsOut s j client draws fresh now other (h, k) =
      let s1 = (chat_theme_for_client_locked x s client j.peer j.join draws).0 in
      let (clients, kicked) = chat_theme-IsOut s client j.peer j.join draws in
      (
        ap (has token) kicked ∙ h,
        lookup-insert client token _ s1.clients ∙ (rw other (ap (lookup token) clients ∙ k)),
      )

  -- A registration is refused, or seats the device and reports.
  pub register_outcome :
      (s : ChatSession) (j : Joining) (draws : ℕ → String) (fresh : String) (now : Time)
      → ((register_client_with_avatar x s j draws fresh now).0 ≡ s)
        ⊎ ((has (client_key x j) s.kicked_clients ≡ false)
            × ((state : String) × ((register_client_with_avatar x s j draws fresh now).0
                  ≡ (status_snapshot_locked
                      (seat_client x s j (client_key x j) draws fresh now)
                      state).0)))
  unfolding register_client_with_avatar
  register_outcome s j draws fresh now = elim (Bool-cases (client_key x j =ₛ "")) [
    | inl nameless ↦ inl (rw nameless refl)
    | inr named ↦ elim (Bool-cases (has (client_key x j) s.kicked_clients)) [
      | inl kicked ↦ inl (rw named (rw kicked refl))
      | inr free ↦ elim (Bool-cases (not (j.join =ₛ "") && has j.join s.kicked_joins)) [
        | inl shut ↦ inl (rw named (rw free (rw shut refl)))
        | inr open_room ↦ inr (
          free,
          (
            joined_state (seat_client x s j (client_key x j) draws fresh now),
            rw named (rw free (rw open_room refl)),
          ),
        )
      ]
    ]
  ]

  pub register-IsOut :
      (s : ChatSession) (j : Joining) (draws : ℕ → String) (fresh : String) (now : Time)
      → IsOut token s
      → IsOut token (register_client_with_avatar x s j draws fresh now).0
  register-IsOut s j draws fresh now (h, k) = elim (register_outcome s j draws fresh now) [
    | inl refused ↦ subst (IsOut token) (sym refused) (h, k)
    | inr (free, (state, seated)) ↦
        let client = client_key x j in
        let other : (client =ₛ token) ≡ false = elim (Bool-cases (client =ₛ token)) [
          | inl same ↦
              let kicked = ap (λ v. has v s.kicked_clients) ((eq_iff client token).0 same) ∙ h in cc
          | inr differ ↦ differ
        ] in
        subst (IsOut token) (sym seated) (
          status_snapshot_locked-IsOut (seat_client x s j client draws fresh now) state
            (seat_client-IsOut s j client draws fresh now other (h, k)))
  ]

  pub leave-IsOut :
      (s : ChatSession) (client : String) (now : Time)
      → IsOut token s
      → IsOut token (leave s client now).0
  unfolding leave status_snapshot_locked
  leave-IsOut s client now (h, k) = elim (Bool-cases (client =ₛ token)) [
    | inl same ↦
        let gone : lookup client s.clients ≡ none =
          ap (λ v. lookup v s.clients) ((eq_iff client token).0 same) ∙ k in
        (h, rw gone (lookup-erase client token s.clients ∙ rw same refl))
    | inr other ↦
        let info = client_or_none (lookup client s.clients) in
        elim (Bool-cases (leb_ℤ info.count (pos 1))) [
          | inl last ↦ (h, rw last (lookup-erase client token s.clients ∙ rw other k))
          | inr more ↦ (h, rw more (lookup-insert client token _ s.clients ∙ rw other k))
        ]
  ]

  pub kick_token-IsOut :
      (s : ChatSession) (key join : String) → IsOut token s → IsOut token (kick_token x s key join)
  unfolding kick_token
  kick_token-IsOut s key join (h, k) = ground arith

  pub force_offline-IsOut :
      (s : ChatSession) (key : String) (c : ChatClient) (now : Time)
      → IsOut token s
      → IsOut token (force_offline x s key c now).0
  unfolding force_offline
  force_offline-IsOut s key c now (h, k) =
      let s' = record s {
        kicked_clients = key ∷ s.kicked_clients;
        kicked_joins = add_text (text_or_empty (lookup key s.client_theme_joins)) s.kicked_joins;
        clients = erase key s.clients;
        client_ids = erase key s.client_ids;
      } in
      let text = x.concat c.label " was forced offline." in
      let out : IsOut token s' =
        (ground (arith, h), lookup-erase key token s.clients ∙ ground (arith, k)) in
      let s'' = add_system_message_locked x s' text now in
      status_snapshot_locked-IsOut s'' s''.state (add_system_message_locked-IsOut s' text now out)
