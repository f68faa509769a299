-- ===== src/Session/Room/Edits.antt =====
-- The calls that change the record of a registered client.
use eqrcp.Base.{◌≡◌, ◌≢◌, refl, ap, ◌∙◌, String, true, some, arith, eq_iff, ◌=ₛ◌, if◌then◌else◌}
use eqrcp.Base.Clock.{Time}
use eqrcp.Base.Assoc.{lookup, insert, lookup-insert}
use eqrcp.Session.Room.Client.{Client, Host, Session}
use eqrcp.Session.Room.Members.{update_client, kick_client, broadcast_presence}
use eqrcp.Session.Room.Peers.{OnePerPeer, announce-clients, presence-clients}

replaced-OnePerPeer :
    (s t : Session) (id : String) (c c' : Client)
    → OnePerPeer s
    → lookup id s.clients ≡ some c
    → c'.id ≡ c.id
    → c'.peer ≡ c.peer
    → ((k : String) → lookup k t.clients ≡ (if id =ₛ k then some c' else lookup k s.clients))
    → OnePerPeer t
replaced-OnePerPeer s t id c c' v e same_id same_peer at = record {
  keyed = λ k d ek. ground (arith, at k, eq_iff id k, v.keyed id c e, v.keyed k d);
  one = λ k j d f ek ej same. ground (
    arith,
    at k,
    at j,
    eq_iff id k,
    eq_iff id j,
    v.one k j d f,
    v.one id j c f e,
    v.one k id d c,
  );
}

module _ (h : Host) where
  update-clients :
      (s : Session) (c : Client) (label avatar : String) (now : Time) (id : String) (k : String)
      → lookup c.id s.clients ≡ some c
      → lookup k (update_client h s c label avatar now id).0.clients ≡ (
          if c.id =ₛ k
          then some (record c { label = label; avatar = avatar })
          else lookup k s.clients)
  unfolding update_client
  update-clients s c label avatar now id k e =
      let c' = record c { label = label; avatar = avatar } in
      let edited = record s { clients = insert c.id c' s.clients } in
      rw (e, update_client)
        (ap (lookup k) (
            announce-clients h (broadcast_presence h edited now).0 _ c.theme c' _ now id
            ∙ presence-clients h edited now)
          ∙ lookup-insert c.id k c' s.clients)

  kick-clients :
      (s : Session) (client_id : String) (c : Client) (now : Time) (id : String) (k : String)
      → lookup client_id s.clients ≡ some c
      → lookup k (kick_client h s client_id now id).0.clients
        ≡ (if client_id =ₛ k then some (record c { kicked = true }) else lookup k s.clients)
  unfolding kick_client
  kick-clients s client_id c now id k e =
      let marked = record s { clients = insert client_id (record c { kicked = true }) s.clients } in
      rw (e, kick_client)
        (ap (lookup k) (announce-clients h marked _ c.theme _ "" now id)
          ∙ lookup-insert client_id k (record c { kicked = true }) s.clients)

  -- A rename and a kick change the record of the one client that they are about, keep every other
  -- client, and keep at most one client of every peer; a kicked client stays in the room, marked,
  -- until it unregisters.
  pub edit-OnePerPeer :
      (s : Session) (c : Client) (label avatar : String) (now : Time) (id : String)
      → OnePerPeer s
      → lookup c.id s.clients ≡ some c
      → let renamed = (update_client h s c label avatar now id).0 in
        let kicked = (kick_client h s c.id now id).0 in
        OnePerPeer renamed
        × OnePerPeer kicked
        × (lookup c.id renamed.clients ≡ some (record c { label = label; avatar = avatar }))
        × (lookup c.id kicked.clients ≡ some (record c { kicked = true }))
        × ((k : String)
            → c.id ≢ k
            → (lookup k renamed.clients ≡ lookup k s.clients)
              × (lookup k kicked.clients ≡ lookup k s.clients))
  edit-OnePerPeer s c label avatar now id v e =
      let up = λ (k : String). update-clients s c label avatar now id k e in
      let out = λ (k : String). kick-clients s c.id c now id k e in
      (
        replaced-OnePerPeer s _ c.id c (record c { label = label; avatar = avatar }) v e refl refl
            up,
        replaced-OnePerPeer s _ c.id c (record c { kicked = true }) v e refl refl out,
        ground (arith, up c.id, eq_iff c.id c.id),
        ground (arith, out c.id, eq_iff c.id c.id),
        λ k ne. (ground (arith, up k, eq_iff c.id k), ground (arith, out k, eq_iff c.id k)),
      )
