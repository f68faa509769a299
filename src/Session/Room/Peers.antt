-- ===== src/Session/Room/Peers.antt =====
-- At most one live connection of each device in a room.
use eqrcp.Base.{
  ap, subst, ◌≡◌, refl, ◌∙◌, sym, ◌≢◌, ◌⊎◌, inl, inr, String, Bool, true, List, [], ◌∷◌, none, some,
  keep, any, arith, eq_iff, Bool-cases, Option-cases, ◌=ₛ◌, if◌then◌else◌,
}
use eqrcp.Base.Int.{ℤ}
use eqrcp.Base.Clock.{Time}
use eqrcp.Base.Assoc.{lookup, erase, values, lookup-insert, lookup-erase}
use eqrcp.Session.Event.{EventEnvelope}
use eqrcp.Session.Room.Client.{Client, Host, Session}
use eqrcp.Session.Room.Visible.{broadcast}
use eqrcp.Session.Room.Members.{
  is_superseded_by, erase_all, seat, register, unregister, announce, broadcast_presence,
  broadcast_message, broadcast_system_message,
}

-- The key of a client is its id, and two clients of one peer are one client.
pub record OnePerPeer (s : Session) : Type 0 where
  pub keyed : (k : String) (c : Client) → lookup k s.clients ≡ some c → c.id ≡ k
  pub one :
      (k j : String) (c d : Client)
      → lookup k s.clients ≡ some c
      → lookup j s.clients ≡ some d
      → c.peer ≡ d.peer
      → k ≡ j

has_id : String → Client → Bool
has_id k o = o.id =ₛ k

lookup-erase_all :
    (k : String) (os : List Client) (m : List (String × Client))
    → lookup k (erase_all os m) ≡ (if any (has_id k) os then none else lookup k m)
unfolding erase_all has_id
lookup-erase_all k [] m = refl
lookup-erase_all k (o ∷ os) m =
    ground (arith, lookup-erase_all k os (erase o.id m), lookup-erase o.id k m)

any-keep :
    (p : Client → Bool) (k : String) (o : Client) (m : List (String × Client))
    → lookup k m ≡ some o
    → o.id ≡ k
    → p o ≡ true
    → any (has_id k) (keep p (values m)) ≡ true
unfolding lookup has_id
any-keep p k o [] e i h = cc
any-keep p k o ((name, x) ∷ m) e i h = elim (Bool-cases (k =ₛ name)) [
  | inl here ↦
      let same : x ≡ o = ground arith in
      let kept : p x ≡ true = subst (λ y. p y ≡ true) (sym same) h in ground (arith, eq_iff x.id k)
  | inr not_here ↦
      let rest : lookup k m ≡ some o = ground arith in ground (arith, any-keep p k o m rest i h)
]

-- What the room holds under a key once `c` has taken its place.
lookup-seat :
    (s : Session) (c : Client) (k : String)
    → lookup k (seat s c).clients ≡ (
        if c.id =ₛ k
        then some c
        else if any (has_id k) (keep (is_superseded_by c) (values s.clients))
        then none
        else lookup k s.clients)
unfolding seat
lookup-seat s c k =
    let superseded = keep (is_superseded_by c) (values s.clients) in
    lookup-insert c.id k c (erase_all superseded s.clients)
    ∙ ap (λ r. if c.id =ₛ k then some c else r) (lookup-erase_all k superseded s.clients)

-- A client that is there afterwards is `c`, or was there before and belongs to another peer.
seat_cases :
    (s : Session) (c d : Client) (k : String)
    → OnePerPeer s
    → lookup k (seat s c).clients ≡ some d
    → ((c.id ≡ k) × (d ≡ c)) ⊎ ((lookup k s.clients ≡ some d) × (d.peer ≢ c.peer))
seat_cases s c d k v e = elim (Bool-cases (c.id =ₛ k)) [
  | inl here ↦ inl ((eq_iff c.id k).0 here, ground (arith, lookup-seat s c k))
  | inr other ↦
      let found : lookup k s.clients ≡ some d = ground (arith, lookup-seat s c k) in
      inr (
        found,
        λ same.
            let taken : is_superseded_by c d ≡ true =
              ground
                (arith, v.keyed k d found, eq_iff d.peer c.peer, eq_iff d.id c.id, eq_iff c.id k) in
            let gone =
              any-keep (is_superseded_by c) k d s.clients found (v.keyed k d found) taken in
            absurd (ground (arith, lookup-seat s c k)),
      )
]

seat-OnePerPeer : (s : Session) (c : Client) → OnePerPeer s → OnePerPeer (seat s c)
seat-OnePerPeer s c v = record {
  keyed = λ k d e. elim (seat_cases s c d k v e) [
    | inl (here, same) ↦ ap (λ x. x.id) same ∙ here
    | inr (found, _) ↦ v.keyed k d found
  ];
  one = λ k j d f ek ej same. elim (seat_cases s c d k v ek) [
    | inl (here, d_is) ↦ elim (seat_cases s c f j v ej) [
      | inl (there, _) ↦ sym here ∙ there
      | inr (_, ne) ↦ absurd (ne (sym same ∙ ap (λ x. x.peer) d_is))
    ]
    | inr (found, ne) ↦ elim (seat_cases s c f j v ej) [
      | inl (_, f_is) ↦ absurd (ne (same ∙ ap (λ x. x.peer) f_is))
      | inr (found', _) ↦ v.one k j d f found found' same
    ]
  ];
}

module _ (h : Host) where
  broadcast-clients :
      (s : Session) (e : EventEnvelope) (now : Time) → (broadcast h s e now).0.clients ≡ s.clients
  unfolding broadcast
  broadcast-clients s e now = refl

  pub announce-clients :
      (s : Session) (body theme : String) (c : Client) (old : String) (now : Time) (id : String)
      → (announce h s body theme c old now id).0.clients ≡ s.clients
  unfolding announce broadcast_system_message broadcast_message broadcast
  announce-clients s body theme c old now id = ground arith

  pub presence-clients :
      (s : Session) (now : Time) → (broadcast_presence h s now).0.clients ≡ s.clients
  unfolding broadcast_presence
  presence-clients s now = broadcast-clients s _ now

  of_clients : (s t : Session) → t.clients ≡ s.clients → OnePerPeer s → OnePerPeer t
  of_clients s t e v = record {
    keyed = λ k c f. v.keyed k c (ap (lookup k) (sym e) ∙ f);
    one = λ k j c d f g same.
        v.one k j c d (ap (lookup k) (sym e) ∙ f) (ap (lookup j) (sym e) ∙ g) same;
  }

  register-clients :
      (s : Session) (c : Client) (after_seq join_seq : ℤ) (now : Time) (id : String)
      → (register h s c after_seq join_seq now id).0.clients ≡ (seat s c).clients
  unfolding register
  register-clients s c after_seq join_seq now id =
      announce-clients (broadcast_presence h (seat s c) now).0 _ c.theme c _ now id
      ∙ presence-clients (seat s c) now

  -- After a client registers, its id leads to it, it is the only client of its peer, and the room
  -- still has at most one client of every peer.
  pub register-OnePerPeer :
      (s : Session) (c : Client) (after_seq join_seq : ℤ) (now : Time) (id : String)
      → OnePerPeer s
      → OnePerPeer (register h s c after_seq join_seq now id).0
        × (lookup c.id (register h s c after_seq join_seq now id).0.clients ≡ some c)
        × ((k : String) (d : Client)
            → lookup k (register h s c after_seq join_seq now id).0.clients ≡ some d
            → d.peer ≡ c.peer
            → k ≡ c.id)
  register-OnePerPeer s c after_seq join_seq now id v =
      let t = (register h s c after_seq join_seq now id).0 in
      let inv : OnePerPeer t =
        of_clients (seat s c) t (register-clients s c after_seq join_seq now id)
          (seat-OnePerPeer s c v) in
      let there : lookup c.id t.clients ≡ some c =
        ap (lookup c.id) (register-clients s c after_seq join_seq now id)
        ∙ ground (arith, lookup-seat s c c.id, eq_iff c.id c.id) in
      (inv, there, λ k d e same. inv.one k c.id d c e there same)

  unregister-clients :
      (s : Session) (c : Client) (now : Time) (id : String) (k : String)
      → lookup k (unregister h s c now id).0.clients
        ≡ (if c.id =ₛ k then none else lookup k s.clients)
  unfolding unregister
  unregister-clients s c now id k = elim (Option-cases (lookup c.id s.clients)) [
    | inl e ↦ rw (e, unregister) (ground (arith, eq_iff c.id k))
    | inr (o, e) ↦
        let left = record s { clients = erase c.id s.clients } in
        rw (e, unregister)
          (ap (lookup k) (
              announce-clients (broadcast_presence h left now).0 _ o.theme o "" now id
              ∙ presence-clients left now)
            ∙ lookup-erase c.id k s.clients)
  ]

  -- A client that unregisters leaves the room, every other client stays, and no two of them share a
  -- peer.
  pub unregister-OnePerPeer :
      (s : Session) (c : Client) (now : Time) (id : String)
      → OnePerPeer s
      → OnePerPeer (unregister h s c now id).0
        × (lookup c.id (unregister h s c now id).0.clients ≡ none)
        × ((k : String)
            → c.id ≢ k
            → lookup k (unregister h s c now id).0.clients ≡ lookup k s.clients)
  unregister-OnePerPeer s c now id v =
      let left = unregister-clients s c now id in
      (
        record {
          keyed = λ k d e. v.keyed k d (ground (arith, left k));
          one = λ k j d f ek ej same.
              v.one k j d f (ground (arith, left k)) (ground (arith, left j)) same;
        },
        ground (arith, left c.id, eq_iff c.id c.id),
        λ k ne. ground (arith, left k, eq_iff c.id k),
      )
