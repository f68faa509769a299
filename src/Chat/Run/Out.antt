-- ===== src/Chat/Run/Out.antt =====
-- A device that was forced offline stays out of a chatSession of pkg/server/chat.go, under any calls.
use eqrcp.Base.{
  ◌≡◌, ap, ◌∙◌, inl, inr, String, false, List, [], ◌∷◌, arith, eq_iff, Bool-cases, Option-cases,
  ◌=ₛ◌,
}
use eqrcp.Base.Clock.{Time}
use eqrcp.Base.Assoc.{lookup, insert, lookup-insert}
use eqrcp.Chat.{TextLibrary, ChatSession}
use eqrcp.Chat.Messages.{status_snapshot_locked, end, system_message, recall_message}
use eqrcp.Chat.Devices.{find_kicked, kick_client, update_host_avatar}
use eqrcp.Chat.Run.{
  Call, registers, leaves, kicks, kicks_token, adds, adds_system, recalls, uploads, downloads,
  changes_avatar, reports, ends, step, run,
}
use eqrcp.Chat.Run.Kept.{recall_message-IsSame, upload-IsSame, download-IsSame}
use eqrcp.Chat.Run.Kicked.{
  IsOut, IsOut-IsSame, add_system_message_locked-IsOut, status_snapshot_locked-IsOut,
  add_message_with_status-IsOut, register-IsOut, leave-IsOut, kick_token-IsOut, force_offline-IsOut,
}

module _ (x : TextLibrary) (token : String) where
  kick_client-IsOut :
      (s : ChatSession) (id : String) (now : Time)
      → IsOut token s
      → IsOut token (kick_client x s id now).0
  unfolding kick_client
  kick_client-IsOut s id now out = elim (Bool-cases (x.trim_space id =ₛ "")) [
    | inl empty ↦ rw empty out
    | inr named ↦ elim (Option-cases (find_kicked s (x.trim_space id) s.clients)) [
      | inl none_found ↦ rw (none_found, kick_client) (rw named out)
      | inr ((key, c), found) ↦
          rw (found, kick_client) (rw named (force_offline-IsOut x token s key c now out))
    ]
  ]

  update_host_avatar-IsOut :
      (s : ChatSession) (key avatar : String) (now : Time)
      → IsOut token s
      → IsOut token (update_host_avatar x s key avatar now)
  unfolding update_host_avatar
  update_host_avatar-IsOut s key avatar now (h, k) = elim (Option-cases (lookup key s.clients)) [
    | inl e ↦ rw (e, update_host_avatar) (h, k)
    | inr (c, e) ↦
        let s' = record s { clients = insert key (record c { avatar = avatar }) s.clients } in
        let other : (key =ₛ token) ≡ false = elim (Bool-cases (key =ₛ token)) [
          | inl same ↦ let gone = ap (λ v. lookup v s.clients) ((eq_iff key token).0 same) ∙ k in cc
          | inr differ ↦ differ
        ] in
        let out : IsOut token s' = (h, lookup-insert key token _ s.clients ∙ rw other k) in
        elim (Bool-cases (c.avatar =ₛ avatar)) [
          | inl same ↦ rw (e, update_host_avatar) (rw same (h, k))
          | inr new ↦
              rw (e, update_host_avatar)
                (rw new (add_system_message_locked-IsOut x token s' "roster-update" now out))
        ]
  ]

  end-IsOut : (s : ChatSession) (state : String) → IsOut token s → IsOut token (end s state).0
  unfolding end status_snapshot_locked
  end-IsOut s state (h, k) = ground (arith, h, k)

  step-IsOut :
      (call : Call) (now : Time) (s : ChatSession) → IsOut token s → IsOut token (step x call now s)
  unfolding step
  step-IsOut (registers j draws fresh) now s out = register-IsOut x token s j draws fresh now out
  step-IsOut (leaves client) now s out = leave-IsOut x token s client now out
  step-IsOut (kicks id) now s out = kick_client-IsOut s id now out
  step-IsOut (kicks_token key join) now s out = kick_token-IsOut x token s key join out
  step-IsOut (adds m state) now s out = add_message_with_status-IsOut x token s m state now out
  step-IsOut (adds_system text) now s out =
      add_message_with_status-IsOut x token s (system_message x text) "" now out
  step-IsOut (recalls id sender key) now s out =
      IsOut-IsSame token s (recall_message x s id sender key now).0
        (recall_message-IsSame x s id sender key now).0 out
  step-IsOut (uploads id progress) now s out =
      IsOut-IsSame token s (step x (uploads id progress) now s) (upload-IsSame s id progress now).0
        out
  step-IsOut (downloads id receiving progress) now s out =
      IsOut-IsSame token s (step x (downloads id receiving progress) now s)
        (download-IsSame s id receiving progress now).0 out
  step-IsOut (changes_avatar key avatar) now s out = update_host_avatar-IsOut s key avatar now out
  step-IsOut (reports state) now s out = status_snapshot_locked-IsOut x token s state out
  step-IsOut (ends state) now s out = end-IsOut s state out

  pub run-IsOut :
      (calls : List (Time × Call)) (s : ChatSession) → IsOut token s → IsOut token (run x calls s)
  unfolding run
  run-IsOut [] s out = out
  run-IsOut ((now, call) ∷ calls) s out =
      run-IsOut calls (step x call now s) (step-IsOut call now s out)
