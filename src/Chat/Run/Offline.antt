-- ===== src/Chat/Run/Offline.antt =====
-- `kickClient` of pkg/server/chat.go: which device it forces offline, and that it stays offline.
use eqrcp.Base.{
  ◌≡◌, ◌⊎◌, subst, refl, sym, inl, inr, String, true, false, not, ◌||◌, List, [], ◌∷◌, some, arith,
  eq_iff, Bool-cases, Option-cases, ◌=ₛ◌,
}
use eqrcp.Base.Clock.{Time}
use eqrcp.Base.Assoc.{lookup, erase, lookup-erase}
use eqrcp.Chat.{TextLibrary, ChatClient, ChatSession, text_or_empty}
use eqrcp.Chat.Messages.{add_system_message_locked}
use eqrcp.Chat.Devices.{add_text, find_kicked, force_offline, kick_client}
use eqrcp.Chat.Themes.{valid_host_token}
use eqrcp.Chat.Run.{Call, run}
use eqrcp.Chat.Run.Kicked.{IsOut, add_system_message_locked-IsOut, status_snapshot_locked-IsOut}
use eqrcp.Chat.Run.Out.{run-IsOut}

abbrev pub Entry : Type 0
Entry = String × ChatClient

-- A client of this id that is not the host.
abbrev pub IsWanted : ChatSession → String → Entry → Type 0
IsWanted s id (token, c) = (c.id ≡ id) × (valid_host_token s token ≡ false)

abbrev pub Among : Entry → List Entry → Type 0
Among e [] = ⊥
Among e (f ∷ rest) = (e ≡ f) ⊎ Among e rest

find_kicked-IsWanted :
    (s : ChatSession) (id : String) (clients : List Entry) (e : Entry)
    → find_kicked s id clients ≡ some e
    → IsWanted s id e × Among e clients
unfolding find_kicked
find_kicked-IsWanted s id [] e h = cc
find_kicked-IsWanted s id ((token, c) ∷ rest) e h =
    elim (Bool-cases (not (c.id =ₛ id) || valid_host_token s token)) [
      | inl skip ↦
          let (wanted, there) = find_kicked-IsWanted s id rest e (ground arith) in
          (wanted, inr there)
      | inr hit ↦
          let same : (token, c) ≡ e = ground arith in
          (
            subst (IsWanted s id) same (ground (arith, eq_iff c.id id), ground arith),
            inl (sym same),
          )
    ]

module _ (x : TextLibrary) where
  force_offline_own :
      (s : ChatSession) (token : String) (c : ChatClient) (now : Time)
      → IsOut token (force_offline x s token c now).0
  unfolding force_offline
  force_offline_own s token c now =
      let s' = record s {
        kicked_clients = token ∷ s.kicked_clients;
        kicked_joins = add_text (text_or_empty (lookup token s.client_theme_joins)) s.kicked_joins;
        clients = erase token s.clients;
        client_ids = erase token s.client_ids;
      } in
      let text = x.concat c.label " was forced offline." in
      let out : IsOut token s' = (
        ground (arith, eq_iff token token),
        ground (arith, lookup-erase token token s.clients, eq_iff token token),
      ) in
      let s'' = add_system_message_locked x s' text now in
      status_snapshot_locked-IsOut x token s'' s''.state
        (add_system_message_locked-IsOut x token s' text now out)

  -- A kick that reports success has put out a client of this id, which was not the host: whatever
  -- calls follow, the device is none of the clients and is refused by its token. A kick that reports
  -- a failure changes nothing.
  pub kick_client-IsOut_for_good :
      (s : ChatSession) (id : String) (now : Time) (calls : List (Time × Call))
      → let (s', done) = kick_client x s id now in
        (done ≡ true
          → (e : Entry) × IsWanted s (x.trim_space id) e
            × Among e s.clients
            × IsOut e.0 (run x calls s'))
        × (done ≡ false → s' ≡ s)
  unfolding kick_client
  kick_client-IsOut_for_good s id now calls = elim (Bool-cases (x.trim_space id =ₛ "")) [
    | inl empty ↦ rw empty (λ d. cc, λ d. refl)
    | inr named ↦ elim (Option-cases (find_kicked s (x.trim_space id) s.clients)) [
      | inl missing ↦ rw (missing, kick_client) (rw named (λ d. cc, λ d. refl))
      | inr ((token, c), found) ↦
          let (wanted, there) =
            find_kicked-IsWanted s (x.trim_space id) s.clients (token, c) found in
          rw (found, kick_client)
            (rw named (
              λ d. (
                (token, c),
                wanted,
                there,
                run-IsOut x token calls (force_offline x s token c now).0
                    (force_offline_own s token c now),
              ),
              λ d. cc,
            ))
    ]
  ]
