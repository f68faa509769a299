-- ===== src/Session/Room/Members.antt =====
-- pkg/chat/v2/session/session.go: the operations of a room.
use eqrcp.Base.{
  String, Bool, true, false, not, ◌&&◌, ◌||◌, List, [], ◌∷◌, ◌++◌, Option, none, some, keep, map,
  any, ◌=ₛ◌, if◌then◌else◌,
}
use eqrcp.Base.Int.{ℤ, pos}
use eqrcp.Base.Clock.{Time}
use eqrcp.Base.Assoc.{lookup, insert, erase, values}
use eqrcp.Session.Event.{
  message_added, message_recalled, presence_changed, MessageType, text, system, Message,
}
use eqrcp.Session.Store.{allocate, recall, current_seq}
use eqrcp.Session.History.{default_history_page_size, resolve_replay_start_seq}
use eqrcp.Session.Room.Client.{
  Client, to_device, Host, Session, Effect, closes, cleans_up, close_reason, close_reason_replaced,
  envelope, is_desktop_peer,
}
use eqrcp.Session.Room.Visible.{broadcast, send_history_page}

abbrev pub blank_message : String → MessageType → String → Time → Message
blank_message id message_type body now = record {
  id = id;
  sender_id = "";
  sender = "";
  old_sender = "";
  avatar = "";
  theme = "";
  message_type = message_type;
  text = body;
  file_name = "";
  size = pos 0;
  mime_type = "";
  url = "";
  file_path = "";
  recalled = false;
  downloaded = false;
  uploading = false;
  created_at = now;
}

abbrev pub is_superseded_by : Client → Client → Bool
is_superseded_by c o = o.peer =ₛ c.peer && not (o.id =ₛ c.id)

unfoldable pub erase_all : List Client → List (String × Client) → List (String × Client)
erase_all [] m = m
erase_all (o ∷ os) m = erase_all os (erase o.id m)

abbrev pub last_client : List Client → Option Client
last_client [] = none
last_client (o ∷ []) = some o
last_client (o ∷ (x ∷ os)) = last_client (x ∷ os)

abbrev pub old_label : Option Client → String
old_label none = ""
old_label (some old) = old.label

-- The clients of the room once `c` has taken its place.
unfoldable pub seat : Session → Client → Session
seat s c =
    let superseded = keep (is_superseded_by c) (values s.clients) in
    record s { clients = insert c.id c (erase_all superseded s.clients) }

module _ (h : Host) where
  -- An event that carries a new message.
  unfoldable pub broadcast_message : Session → Message → String → Time → Session × List Effect
  broadcast_message s msg command_id now =
      let (store, a) = allocate s.store msg in
      broadcast h (record s { store = store })
        (record (envelope message_added command_id now) { message = some a }) now

  unfoldable pub send_text :
      Session → Client → (body command_id : String) → Time → (id : String) → Session × List Effect
  send_text s sender body command_id now id =
      broadcast_message s
        (record (blank_message id text body now) {
          sender_id = sender.peer;
          sender = sender.label;
          avatar = sender.avatar;
          theme = sender.theme;
        })
        command_id now

  unfoldable pub send_system_message : Session → String → Time → String → Session × List Effect
  send_system_message s body now id =
      broadcast_message s
        (record (blank_message id system body now) { sender_id = "system"; sender = "system" }) ""
        now

  unfoldable pub broadcast_system_message :
      Session
      → (body theme : String) → Client
      → (old_sender : String) → Time
      → String
      → Session × List Effect
  broadcast_system_message s body theme c old_sender now id =
      broadcast_message s
        (record (blank_message id system body now) {
          theme = theme;
          sender = c.label;
          sender_id = c.peer;
          old_sender = old_sender;
        })
        "" now

  -- A system message, unless there is nothing to say or the room is silent.
  unfoldable pub announce :
      Session
      → (body theme : String) → Client
      → (old_sender : String) → Time
      → String
      → Session × List Effect
  announce s body theme c old_sender now id =
      if body =ₛ "" || s.disable_system_messages
      then (s, [])
      else broadcast_system_message s body theme c old_sender now id

  unfoldable pub recall_message :
      Session → (sender_id message_id command_id : String) → Time → Session × List Effect
  recall_message s sender_id message_id command_id now =
      let (store, found) = recall s.store message_id sender_id in
      elim found [
        | none ↦ (record s { store = store }, [])
        | some a ↦
            broadcast h (record s { store = store })
              (record (envelope message_recalled command_id now) { message = some a }) now
      ]

  unfoldable pub broadcast_presence : Session → Time → Session × List Effect
  broadcast_presence s now =
      let devices = map to_device (h.sort_by_join_time (values s.clients)) in
      broadcast h s (record (envelope presence_changed "" now) { presence = some devices }) now

  unfoldable pub has_remote_client : Session → Bool
  has_remote_client s = any (λ c. not (is_desktop_peer h c.peer)) (values s.clients)

  -- The label of the first client whose own join token the new client came with.
  unfoldable pub parent_label : Client → List Client → String
  parent_label c [] = ""
  parent_label c (o ∷ os) =
      if o.local_join =ₛ c.join && (not (o.id =ₛ c.id) && not (is_desktop_peer h o.peer))
      then o.label
      else parent_label c os

  abbrev pub join_text : Client → Option Client → String → String
  join_text c none parent =
      if is_desktop_peer h c.peer
      then ""
      else if parent =ₛ ""
      then "{sender} 已加入会话"
      else h.concat "{sender} 通过 " (h.concat parent " 加入了会话")
  join_text c (some old) parent =
      if not (old.label =ₛ c.label)
      then "{oldSender} 修改用户名为 {sender}"
      else if not (old.avatar =ₛ c.avatar)
      then "{sender} 修改了头像"
      else if is_desktop_peer h c.peer
      then ""
      else "{sender} 已重新连接"

  unfoldable pub register :
      Session → Client → (after_seq join_seq : ℤ) → Time → String → Session × List Effect
  register s c after_seq join_seq now id =
      let superseded = keep (is_superseded_by c) (values s.clients) in
      let others = erase_all superseded s.clients in
      let parent = if c.join =ₛ "" then "" else parent_label c (values others) in
      let joined = seat s c in
      let start = resolve_replay_start_seq after_seq join_seq (current_seq joined.store) in
      let replay = send_history_page h joined c start (pos 0) default_history_page_size "" now in
      let old = last_client superseded in
      let (present, shown) = broadcast_presence joined now in
      let (told, news) =
        announce present (join_text c old parent) c.theme c (old_label old) now id in
      (told, map (λ o. closes o.id close_reason_replaced) superseded ++ (replay ++ (shown ++ news)))

  unfoldable pub unregister : Session → Client → Time → String → Session × List Effect
  unregister s c now id = elim (lookup c.id s.clients) [
    | none ↦ (s, [])
    | some o ↦
        let left = record s { clients = erase c.id s.clients } in
        let has_other = any (λ x. x.peer =ₛ c.peer) (values left.clients) in
        let (present, shown) = broadcast_presence left now in
        let body =
          if has_other || (o.kicked || is_desktop_peer h c.peer) then "" else "{sender} 已断开连接" in
        let (told, news) = announce present body o.theme o "" now id in
        let cleanup : List Effect = elim told.clients [ [] ↦ cleans_up ∷ [] | _ ∷ _ ↦ [] ] in
        (told, closes c.id close_reason ∷ (shown ++ (news ++ cleanup)))
  ]

  -- The new record of `c` is also the map's, where `c` is registered.
  unfoldable pub update_client :
      Session → Client → (label avatar : String) → Time → String → Session × List Effect
  update_client s c label avatar now id =
      let c' = record c { label = label; avatar = avatar } in
      let clients : List (String × Client) = elim (lookup c.id s.clients) [
        | none ↦ s.clients
        | some _ ↦ insert c.id c' s.clients
      ] in
      let renamed = not (c.label =ₛ label) in
      let body =
        if renamed
        then "{oldSender} 修改用户名为 {sender}"
        else if not (c.avatar =ₛ avatar)
        then "{sender} 修改了头像"
        else "" in
      let (present, shown) = broadcast_presence (record s { clients = clients }) now in
      let (told, news) =
        announce present body c.theme c' (if renamed then c.label else "") now id in
      (told, shown ++ news)

  unfoldable pub kick_client : Session → String → Time → String → Session × List Effect
  kick_client s client_id now id = elim (lookup client_id s.clients) [
    | none ↦ (s, [])
    | some c ↦
        let c' = record c { kicked = true } in
        let marked = record s { clients = insert client_id c' s.clients } in
        let (told, news) = announce marked "已强制设备 {sender} 退出会话" c.theme c' "" now id in
        (told, news ++ closes client_id close_reason ∷ [])
  ]
