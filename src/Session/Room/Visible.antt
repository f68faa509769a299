-- ===== src/Session/Room/Visible.antt =====
-- pkg/chat/v2/session/session.go: which events a client may see, and the sends of an event.
use eqrcp.Base.{
  String, Bool, true, false, ◌&&◌, ◌||◌, List, [], ◌∷◌, ◌++◌, none, some, ◌=ₛ◌, if◌then◌else◌,
}
use eqrcp.Base.Int.{ℤ, pos, ltb_ℤ, leb_ℤ, eqb_ℤ}
use eqrcp.Base.Int64.{add64}
use eqrcp.Base.Clock.{Time}
use eqrcp.Base.Assoc.{values}
use eqrcp.Transfer.Job.{TransferEvent}
use eqrcp.Session.Event.{is_file, Message, EventEnvelope, history_page, HistoryPage}
use eqrcp.Session.Store.{MessageStore, deref, add, find}
use eqrcp.Session.History.{select_message_history_page, normalize_history_limit}
use eqrcp.Session.Room.Client.{Client, Host, Session, Effect, sends, envelope, is_desktop_peer}

-- The loop's variables: what is sent, how much, and the ends of it.
pub record PageScan : Type 0 where
  pub sent : List Effect
  pub count : ℤ
  pub oldest_seq : ℤ
  pub newest_seq : ℤ

abbrev first_seq : List EventEnvelope → ℤ
first_seq [] = pos 0
first_seq (e ∷ es) = e.seq

abbrev last_seq : List EventEnvelope → ℤ
last_seq [] = pos 0
last_seq (e ∷ []) = e.seq
last_seq (e ∷ (x ∷ es)) = last_seq (x ∷ es)

abbrev is_empty : List EventEnvelope → Bool
is_empty [] = true
is_empty (e ∷ es) = false

-- The event that closes a page: where nothing was sent, its ends are those of the stored page.
unfoldable pub page_meta : List EventEnvelope → Bool → PageScan → HistoryPage
page_meta page more scan =
    let nothing = eqb_ℤ scan.count (pos 0) in
    record {
      has_more = if nothing && is_empty page then false else more;
      oldest_seq = if nothing then first_seq page else scan.oldest_seq;
      newest_seq = if nothing then last_seq page else scan.newest_seq;
      count = scan.count;
    }

-- One round of the loop for an event that the client may see.
unfoldable pub note_sent : Client → EventEnvelope → PageScan → PageScan
note_sent c e acc = record {
  sent = acc.sent ++ sends c.id e ∷ [];
  count = add64 acc.count (pos 1);
  oldest_seq =
      if eqb_ℤ acc.oldest_seq (pos 0) || ltb_ℤ e.seq acc.oldest_seq then e.seq else acc.oldest_seq;
  newest_seq = if ltb_ℤ acc.newest_seq e.seq then e.seq else acc.newest_seq;
}

module _ (h : Host) where
  -- The client is the desktop, or has no peer name.
  abbrev is_privileged : Client → Bool
  is_privileged c = is_desktop_peer h c.peer || c.peer =ₛ ""

  unfoldable pub is_transfer_event_visible_to : MessageStore → Client → TransferEvent → Bool
  is_transfer_event_visible_to store c t =
      let fallback = c.peer =ₛ t.client_id || is_privileged c in
      if t.message_id =ₛ "" then fallback else elim (find store t.message_id) [
        | none ↦ fallback
        | some msg ↦ msg.downloaded || (c.peer =ₛ msg.sender_id || fallback)
      ]

  abbrev pub is_message_visible_to : Client → Message → Bool
  is_message_visible_to c msg =
      if is_file msg.message_type && msg.uploading
      then c.peer =ₛ msg.sender_id || is_privileged c
      else true

  unfoldable pub is_event_visible_to : MessageStore → Client → EventEnvelope → Bool
  is_event_visible_to store c event = elim event.transfer [
    | some t ↦ is_transfer_event_visible_to store c t
    | none ↦ elim event.message [
      | none ↦ true
      | some a ↦ elim (deref store a) [ none ↦ true | some msg ↦ is_message_visible_to c msg ]
    ]
  ]

  -- One `Send` for each client that may see the event.
  unfoldable pub send_all : MessageStore → List Client → EventEnvelope → List Effect
  send_all store [] event = []
  send_all store (c ∷ cs) event =
      if is_event_visible_to store c event
      then sends c.id event ∷ send_all store cs event
      else send_all store cs event

  unfoldable pub broadcast : Session → EventEnvelope → Time → Session × List Effect
  broadcast s event now =
      let (store, numbered) = add s.store event now in
      (record s { store = store }, send_all store (values s.clients) numbered)

  unfoldable pub broadcast_raw : Session → EventEnvelope → List Effect
  broadcast_raw s event = send_all s.store (values s.clients) event

  unfoldable pub scan_page : MessageStore → Client → List EventEnvelope → PageScan → PageScan
  scan_page store c [] acc = acc
  scan_page store c (e ∷ es) acc =
      scan_page store c es (if is_event_visible_to store c e then note_sent c e acc else acc)

  unfoldable pub send_history_page :
      Session → Client → (after_seq before_seq limit : ℤ) → String → Time → List Effect
  send_history_page s c after_seq before_seq limit command_id now =
      let (page, more) =
        select_message_history_page s.store after_seq before_seq (normalize_history_limit limit) in
      let scan =
        scan_page s.store c page
          (record { sent = []; count = pos 0; oldest_seq = pos 0; newest_seq = pos 0 }) in
      let meta = record (envelope history_page command_id now) {
        history = some (page_meta page more scan);
      } in
      scan.sent ++ sends c.id meta ∷ []

  unfoldable pub load_history :
      Session → Client → (join_seq before_seq limit : ℤ) → String → Time → List Effect
  load_history s c join_seq before_seq limit command_id now =
      let nothing : HistoryPage = record {
        has_more = false;
        oldest_seq = pos 0;
        newest_seq = pos 0;
        count = pos 0;
      } in
      let floor = if ltb_ℤ join_seq (pos 0) then pos 0 else join_seq in
      if leb_ℤ before_seq (pos 0)
      then sends c.id (record (envelope history_page command_id now) { history = some nothing })
        ∷ []
      else send_history_page s c floor before_seq limit command_id now
