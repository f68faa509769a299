-- ===== src/Session/Room/Replay.antt =====
-- What a client that registers is sent, and the numbers of the events that a room sends.
use eqrcp.Base.{
  ℕ, suc, ◌+◌, ◌-◌, ◌≤◌, ◌≡◌, sym, subst, inl, inr, String, Bool, true, false, ◌||◌, All-drop, List,
  [], ◌∷◌, ◌++◌, All, All-append, length, keep, map, ltb, arith, Bool-cases, length-append, ◌=ₛ◌,
  if◌then◌else◌,
}
use eqrcp.Base.Int.{ℤ, pos, ◌≤ℤ◌, ◌<ℤ◌, pos_part}
use eqrcp.Base.Int64.{max_int64}
use eqrcp.Base.Clock.{Time}
use eqrcp.Base.Assoc.{values}
use eqrcp.Session.Event.{Message, EventEnvelope}
use eqrcp.Session.Store.{MessageStore, add, allocate, current_seq}
use eqrcp.Session.Store.Numbering.{IsNumbered, add-IsNumbered}
use eqrcp.Session.History.{
  default_history_page_size, normalize_history_limit, has_message, in_range, newest,
  select_message_history_page, resolve_replay_start_seq,
}
use eqrcp.Session.Room.Client.{Client, Host, Session, Effect, sends, closes, close_reason_replaced}
use eqrcp.Session.Room.Visible.{
  PageScan, note_sent, scan_page, send_all, broadcast, send_history_page, is_event_visible_to,
}
use eqrcp.Session.Room.Members.{
  is_superseded_by, seat, register, announce, broadcast_presence, broadcast_message,
  broadcast_system_message,
}

-- An event that carries a message has a number above `floor`.
abbrev pub IsAfter : ℤ → EventEnvelope → Type 0
IsAfter floor e = has_message e ≡ true → floor <ℤ e.seq

-- So has each event that is sent.
abbrev pub SendsAfter : ℤ → Effect → Type 0
SendsAfter floor (sends id e) = IsAfter floor e
SendsAfter floor _ = Unit

in_range-lt : (a b : ℤ) (e : EventEnvelope) → in_range a b e ≡ true → a <ℤ e.seq
unfolding in_range
in_range-lt a b e h = elim (Bool-cases (has_message e)) [
  | inl carries ↦ ground arith
  | inr empty ↦ ground arith
]

in_range-IsAfter :
    (floor a b : ℤ) (es : List EventEnvelope)
    → floor ≤ℤ a
    → All (λ e. floor <ℤ e.seq) (keep (in_range a b) es)
in_range-IsAfter floor a b [] le = tt
in_range-IsAfter floor a b (e ∷ es) le = elim (Bool-cases (in_range a b e)) [
  | inl in_it ↦ rw in_it (omega (arith, in_range-lt a b e in_it), in_range-IsAfter floor a b es le)
  | inr out ↦ rw out (in_range-IsAfter floor a b es le)
]

-- A page of the history holds nothing at or below a floor under its range.
page-IsAfter :
    (floor : ℤ) (s : MessageStore) (a b limit : ℤ)
    → floor ≤ℤ a
    → All (λ e. floor <ℤ e.seq) (select_message_history_page s a b limit).0
unfolding select_message_history_page newest
page-IsAfter floor s a b limit le =
    let matched = keep (in_range a b) s.events in
    let l = pos_part (normalize_history_limit limit) in
    elim (Bool-cases (ltb l (length matched))) [
      | inl long ↦ rw long (
          All-drop (λ e. floor <ℤ e.seq) (length matched - l) matched
            (in_range-IsAfter floor a b s.events le))
      | inr short ↦ rw short (in_range-IsAfter floor a b s.events le)
    ]

closes-SendsAfter :
    (floor : ℤ) (os : List Client)
    → All (SendsAfter floor) (map (λ o. closes o.id close_reason_replaced) os)
closes-SendsAfter floor [] = tt
closes-SendsAfter floor (o ∷ os) = (tt, closes-SendsAfter floor os)

resolve-le :
    (after_seq join_seq current : ℤ)
    → pos 0 <ℤ join_seq
    → join_seq ≤ℤ resolve_replay_start_seq after_seq join_seq current
unfolding resolve_replay_start_seq
resolve-le after_seq join_seq current p = ground arith

add-length :
    (s : MessageStore) (e : EventEnvelope) (now : Time)
    → length (add s e now).0.events ≡ suc (length s.events)
unfolding add
add-length s e now = omega (arith, length-append {0} s.events (_ ∷ []))

module _ (h : Host) where
  scan_page-SendsAfter :
      (floor : ℤ) (store : MessageStore) (c : Client) (es : List EventEnvelope) (acc : PageScan)
      → All (λ e. floor <ℤ e.seq) es
      → All (SendsAfter floor) acc.sent
      → All (SendsAfter floor) (scan_page h store c es acc).sent
  unfolding scan_page note_sent
  scan_page-SendsAfter floor store c [] acc he ha = ha
  scan_page-SendsAfter floor store c (e ∷ es) acc he ha =
      let acc' = if is_event_visible_to h store c e then note_sent c e acc else acc in
      scan_page-SendsAfter floor store c es acc' he.1 (noted (is_event_visible_to h store c e))
    where
      noted : (seen : Bool) → All (SendsAfter floor) (if seen then note_sent c e acc else acc).sent
      noted true = All-append (SendsAfter floor) acc.sent _ ha (λ _. he.0, tt)
      noted false = ha

  send_all-SendsAfter :
      (floor : ℤ) (store : MessageStore) (cs : List Client) (e : EventEnvelope)
      → IsAfter floor e
      → All (SendsAfter floor) (send_all h store cs e)
  unfolding send_all
  send_all-SendsAfter floor store [] e p = tt
  send_all-SendsAfter floor store (c ∷ cs) e p =
      elim (Bool-cases (is_event_visible_to h store c e)) [
        | inl seen ↦ rw seen (p, send_all-SendsAfter floor store cs e p)
        | inr hidden ↦ rw hidden (send_all-SendsAfter floor store cs e p)
      ]

  -- A room with space for `k` more events.
  HasRoom : ℕ → Session → Type 0
  HasRoom k s = IsNumbered s.store × (suc (k + length s.store.events) ≤ max_int64)

  -- A broadcast takes one number, above all that were given before.
  broadcast_lem :
      (floor : ℤ) (k : ℕ) (s : Session) (e : EventEnvelope) (now : Time)
      → HasRoom (suc k) s
      → floor <ℤ s.store.next_seq
      → HasRoom k (broadcast h s e now).0
        × (floor <ℤ (broadcast h s e now).0.store.next_seq)
        × All (SendsAfter floor) (broadcast h s e now).1
  unfolding broadcast HasRoom
  broadcast_lem floor k s e now (v, fits) above =
      let (v', number) = add-IsNumbered s.store e now (omega arith) v in
      let taken : floor <ℤ pos (suc (length s.store.events)) =
        subst (λ n. floor <ℤ n) v.next above in
      (
        (v', omega (arith, add-length s.store e now)),
        subst (λ n. floor <ℤ n) (sym v'.next) (omega (arith, taken, add-length s.store e now)),
        send_all-SendsAfter floor _ (values s.clients) _
            (λ _. subst (λ n. floor <ℤ n) (sym number) taken),
      )

  broadcast_message_lem :
      (floor : ℤ) (s : Session) (msg : Message) (command_id : String) (now : Time)
      → HasRoom 1 s
      → floor <ℤ s.store.next_seq
      → IsNumbered (broadcast_message h s msg command_id now).0.store
        × All (SendsAfter floor) (broadcast_message h s msg command_id now).1
  unfolding broadcast_message allocate HasRoom
  broadcast_message_lem floor s msg command_id now (v, fits) above =
      let grown = record s { store = record s.store { heap = s.store.heap ++ msg ∷ [] } } in
      let v' : IsNumbered grown.store = record { numbered = v.numbered; next = v.next } in
      let (room, _, sent) = broadcast_lem floor 0 grown _ now (v', fits) above in (room.0, sent)

  -- So does a system message, if there is one.
  announce_lem :
      (floor : ℤ) (s : Session) (body theme : String) (c : Client) (old : String) (now : Time)
      (id : String)
      → HasRoom 1 s
      → floor <ℤ s.store.next_seq
      → IsNumbered (announce h s body theme c old now id).0.store
        × All (SendsAfter floor) (announce h s body theme c old now id).1
  unfolding announce broadcast_system_message HasRoom
  announce_lem floor s body theme c old now id r above =
      elim (Bool-cases (body =ₛ "" || s.disable_system_messages)) [
        | inl silent ↦ rw silent (r.0, tt)
        | inr loud ↦ rw loud (broadcast_message_lem floor s _ "" now r above)
      ]

  send_history_page-SendsAfter :
      (floor : ℤ) (s : Session) (c : Client) (a b limit : ℤ) (command_id : String) (now : Time)
      → floor ≤ℤ a
      → All (SendsAfter floor) (send_history_page h s c a b limit command_id now)
  unfolding send_history_page
  send_history_page-SendsAfter floor s c a b limit command_id now le =
      All-append (SendsAfter floor) _ _
        (scan_page-SendsAfter floor s.store c _ _
          (page-IsAfter floor s.store a b (normalize_history_limit limit) le) tt)
        ((λ e. cc), tt)

  -- A client that registers with a join boundary below the number that the store gives next is sent no
  -- message whose number is not above the boundary, neither from the history nor by the broadcasts of its
  -- arrival, and the numbers of the stored events go on without a gap. The boundary must be above 0, the
  -- stored events numbered without a gap, and the numbers of three more must fit in an int64.
  pub register-SendsAfter :
      (s : Session) (c : Client) (after_seq join_seq : ℤ) (now : Time) (id : String)
      → IsNumbered s.store
      → suc (suc (suc (length s.store.events))) ≤ max_int64
      → pos 0 <ℤ join_seq
      → join_seq <ℤ s.store.next_seq
      → IsNumbered (register h s c after_seq join_seq now id).0.store
        × All (SendsAfter join_seq) (register h s c after_seq join_seq now id).1
  unfolding register broadcast_presence seat HasRoom
  register-SendsAfter s c after_seq join_seq now id v fits p above =
      let superseded = keep (is_superseded_by c) (values s.clients) in
      let joined = seat s c in
      let start = resolve_replay_start_seq after_seq join_seq (current_seq s.store) in
      let (room, above', shown) = broadcast_lem join_seq 1 joined _ now (v, omega arith) above in
      let (v', news) =
        announce_lem join_seq (broadcast_presence h joined now).0 _ c.theme c _ now id room
          above' in
      (
        v',
        All-append (SendsAfter join_seq) _ _ (closes-SendsAfter join_seq superseded) (
            All-append (SendsAfter join_seq) _ _
              (send_history_page-SendsAfter join_seq joined c start (pos 0)
                default_history_page_size "" now
                (resolve-le after_seq join_seq (current_seq s.store) p))
              (All-append (SendsAfter join_seq) _ _ shown news)),
      )
