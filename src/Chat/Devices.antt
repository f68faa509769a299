-- ===== src/Chat/Devices.antt =====
-- pkg/server/chat.go: the devices of a chatSession, who join, leave and are forced offline.
use eqrcp.Base.{
  ℕ, String, Bool, true, false, not, ◌&&◌, ◌||◌, List, [], ◌∷◌, Option, none, some, ltb, length,
  ◌=ₛ◌, if◌then◌else◌,
}
use eqrcp.Base.Int.{pos, leb_ℤ}
use eqrcp.Base.Int64.{add64, sub64}
use eqrcp.Base.Clock.{Time}
use eqrcp.Base.Distinct.{has}
use eqrcp.Base.Assoc.{lookup, insert, erase}
use eqrcp.Chat.{
  TextLibrary, ChatClient, ChatSession, ChatStatusSnapshot, is_terminal_chat_state, text_or_empty,
}
use eqrcp.Chat.Messages.{status_snapshot_locked, add_system_message_locked}
use eqrcp.Chat.Themes.{valid_host_token, chat_theme_for_client_locked}

abbrev no_client : ChatClient
no_client = record { id = ""; label = ""; avatar = ""; count = pos 0; theme = ""; last_seen = 0 }

abbrev pub client_or_none : Option ChatClient → ChatClient
client_or_none none = no_client
client_or_none (some c) = c

-- The state that a registration reports.
abbrev pub joined_state : ChatSession → String
joined_state s =
    if ltb 1 (length s.clients) && not (is_terminal_chat_state s.state) then "active" else s.state

-- The function that `registerClientWithAvatar` returns, for the key of a device that was let in.
unfoldable pub leave : ChatSession → (client : String) → Time → ChatSession × ChatStatusSnapshot
leave s client now =
    let info = client_or_none (lookup client s.clients) in
    let fewer = record info { count = sub64 info.count (pos 1); last_seen = now } in
    let clients =
      if leb_ℤ info.count (pos 1) then erase client s.clients else insert client fewer s.clients in
    status_snapshot_locked (record s { clients = clients }) s.state

-- The first client of this id that is not the host.
unfoldable pub find_kicked :
    ChatSession → String → List (String × ChatClient) → Option (String × ChatClient)
find_kicked s id [] = none
find_kicked s id ((token, c) ∷ rest) =
    let later = find_kicked s id rest in
    if not (c.id =ₛ id) || valid_host_token s token then later else some (token, c)

abbrev pub add_text : String → List String → List String
add_text v vs = if v =ₛ "" then vs else v ∷ vs

-- What a device tells when it joins.
pub record Joining : Type 0 where
  pub token : String
  pub label : String
  pub avatar : String
  pub peer : String
  pub join : String
  pub fallback : String

module _ (x : TextLibrary) where
  open x use {
    trim_space, join_fields, first_runes, first_bytes, equal_fold, has_prefix, trim_prefix,
    parse_int, concat,
  }

  unfoldable pub sanitize_chat_sender : String → String
  sanitize_chat_sender sender =
      let trimmed = trim_space sender in
      if trimmed =ₛ "" then "Guest" else first_runes (pos 40) (join_fields trimmed)

  unfoldable pub sanitize_chat_avatar : String → String
  sanitize_chat_avatar avatar =
      let trimmed = trim_space avatar in
      if trimmed =ₛ ""
      then ""
      else if has_prefix trimmed "data:image/"
      then first_bytes (pos 102_400) trimmed
      else first_runes (pos 4) trimmed

  -- `fresh` is what `randomChatToken` draws.
  unfoldable pub client_id_locked : ChatSession → (token fresh : String) → ChatSession × String
  client_id_locked s token fresh =
      let key = trim_space token in
      let id = text_or_empty (lookup key s.client_ids) in
      let new = concat "dev-" fresh in
      if key =ₛ ""
      then (s, "")
      else if not (id =ₛ "")
      then (s, id)
      else (record s { client_ids = insert key new s.client_ids }, new)

  -- The key of the device in the maps: its token, or else its address.
  unfoldable pub client_key : Joining → String
  client_key j =
      let client = trim_space j.token in if client =ₛ "" then trim_space j.fallback else client

  unfoldable pub seat_client :
      ChatSession → Joining → String → (ℕ → String) → (fresh : String) → Time → ChatSession
  seat_client s j client draws fresh now =
      let (s1, theme) = chat_theme_for_client_locked x s client j.peer j.join draws in
      let info = client_or_none (lookup client s1.clients) in
      let (s2, new_id) = client_id_locked s1 client fresh in
      let named = if info.id =ₛ "" then new_id else info.id in
      let client_info : ChatClient = record {
        id = named;
        label = sanitize_chat_sender j.label;
        avatar = sanitize_chat_avatar j.avatar;
        count = add64 info.count (pos 1);
        theme = theme;
        last_seen = now;
      } in
      let ids = if info.id =ₛ "" then s2.client_ids else s1.client_ids in
      record s1 { client_ids = ids; clients = insert client client_info s1.clients }

  -- The session and the snapshot that is reported, if the device is let in.
  unfoldable pub register_client_with_avatar :
      ChatSession
      → Joining
      → (ℕ → String)
      → (fresh : String) → Time
      → ChatSession × Option ChatStatusSnapshot
  register_client_with_avatar s j draws fresh now =
      let client = client_key j in
      let seated = seat_client s j client draws fresh now in
      let (s', snapshot) = status_snapshot_locked seated (joined_state seated) in
      if client =ₛ ""
      then (s, none)
      else if has client s.kicked_clients
      then (s, none)
      else if not (j.join =ₛ "") && has j.join s.kicked_joins
      then (s, none)
      else (s', some snapshot)

  unfoldable pub force_offline :
      ChatSession → String → ChatClient → Time → ChatSession × ChatStatusSnapshot
  force_offline s token c now =
      let s' =
        add_system_message_locked x
          (record s {
            kicked_clients = token ∷ s.kicked_clients;
            kicked_joins =
                add_text (text_or_empty (lookup token s.client_theme_joins)) s.kicked_joins;
            clients = erase token s.clients;
            client_ids = erase token s.client_ids;
          })
          (concat c.label " was forced offline.") now in
      status_snapshot_locked s' s'.state

  unfoldable pub kick_client : ChatSession → (id : String) → Time → ChatSession × Bool
  kick_client s id now =
      let wanted = trim_space id in
      if wanted =ₛ "" then (s, false) else elim (find_kicked s wanted s.clients) [
        | none ↦ (s, false)
        | some (token, c) ↦ ((force_offline s token c now).0, true)
      ]

  unfoldable pub kick_token : ChatSession → (token join : String) → ChatSession
  kick_token s token join =
      let key = trim_space token in
      if key =ₛ "" then s else record s {
        kicked_clients = key ∷ s.kicked_clients;
        kicked_joins =
            add_text (text_or_empty (lookup key s.client_theme_joins))
              (add_text join s.kicked_joins);
      }

  unfoldable pub client_kicked : ChatSession → String → Bool
  client_kicked s token =
      let key = trim_space token in if key =ₛ "" then false else has key s.kicked_clients

  unfoldable pub join_kicked : ChatSession → String → Bool
  join_kicked s join =
      let key = trim_space join in if key =ₛ "" then false else has key s.kicked_joins

  -- The change of the host's avatar.
  unfoldable pub update_host_avatar : ChatSession → (token new_avatar : String) → Time → ChatSession
  update_host_avatar s token new_avatar now = elim (lookup token s.clients) [
    | none ↦ s
    | some c ↦
        if c.avatar =ₛ new_avatar
        then s
        else add_system_message_locked x
            (record s { clients = insert token (record c { avatar = new_avatar }) s.clients })
            "roster-update" now
  ]
