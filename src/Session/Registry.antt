-- ===== src/Session/Registry.antt =====
-- pkg/chat/v2/session/manager.go: the rooms by their tokens, and the attachments of a room
-- (session.go). A caller that changes the room it was given changes the entry of the map.
use eqrcp.Base.{
  ℕ, ◌≡◌, ◌≢◌, refl, ap, ◌∙◌, inl, inr, Bool-cases, Option-cases, String, Bool, true, false, ◌&&◌,
  ◌||◌, List, [], ◌∷◌, Option, none, some, map, any, length, All, arith, eq_iff, ◌=ₛ◌,
  if◌then◌else◌,
}
use mathlib.Core.Option.{map as option_map}
use eqrcp.Base.Assoc.{lookup, insert, erase, values, lookup-insert, lookup-erase}
use eqrcp.Session.Room.Client.{Client, Host, Session, new_session}
use eqrcp.Session.Room.Members.{has_remote_client}

unfoldable pub add_attachment : Session → String → String → Session
add_attachment s id path = record s { attachments = insert id path s.attachments }

abbrev pub text_of : Option String → String
text_of none = ""
text_of (some path) = path

unfoldable pub get_attachment : Session → String → String
get_attachment s id = text_of (lookup id s.attachments)

unfoldable pub get_client : Session → String → Option Client
get_client s client_id = lookup client_id s.clients

unfoldable pub clients_count : Session → ℕ
clients_count s = length (values s.clients)

pub record Manager : Type 0 where
  pub sessions : List (String × Session)
  pub disable_system_messages : Bool

unfoldable pub new_manager : Manager
new_manager = record { sessions = []; disable_system_messages = false }

unfoldable pub get_or_create : Manager → String → Manager × Session
get_or_create m token = elim (lookup token m.sessions) [
  | some s ↦ (m, s)
  | none ↦
      let s = record (new_session token) { disable_system_messages = m.disable_system_messages } in
      (record m { sessions = insert token s m.sessions }, s)
]

unfoldable pub delete : Manager → String → Manager
delete m token = record m { sessions = erase token m.sessions }

unfoldable pub any_remote_client : Host → Manager → Bool
any_remote_client h m = any (has_remote_client h) (values m.sessions)

unfoldable pub for_each {ℓ} : {A : Type ℓ} → (Session → A) → Manager → List A
for_each f m = map f (values m.sessions)

-- The first room, in the order of `range`, that has a path for the id.
unfoldable pub find_attachment : List (String × Session) → String → Option (String × String)
find_attachment [] id = none
find_attachment ((token, s) ∷ rest) id =
    let later = find_attachment rest id in
    let path = get_attachment s id in if path =ₛ "" then later else some (token, path)

unfoldable pub get_attachment_token_and_path : Manager → String → Option (String × String)
get_attachment_token_and_path m id = find_attachment m.sessions id

unfoldable pub find_path : List (String × Session) → String → Option String
find_path [] id = none
find_path ((token, s) ∷ rest) id =
    let later = find_path rest id in
    let path = get_attachment s id in if path =ₛ "" then later else some path

unfoldable pub get_attachment_path_by_id : Manager → String → Option String
get_attachment_path_by_id m id = find_path m.sessions id

found_room :
    (m : Manager) (token : String) (s : Session)
    → lookup token m.sessions ≡ some s
    → get_or_create m token ≡ (m, s)
unfolding get_or_create
found_room m token s e = rw (e, get_or_create) refl

abbrev empty_room : Manager → String → Session
empty_room m token = record (new_session token) {
  disable_system_messages = m.disable_system_messages;
}

new_room :
    (m : Manager) (token : String)
    → lookup token m.sessions ≡ none
    → get_or_create m token
      ≡ (record m { sessions = insert token (empty_room m token) m.sessions }, empty_room m token)
unfolding get_or_create
new_room m token e = rw (e, get_or_create) refl

-- A room is created at most once: after the first call for a token every later call gives the same
-- room and changes nothing, and a call leaves the rooms of the other tokens alone. A token that was
-- deleted is given a new, empty room, with the manager's setting for system messages.
pub get_or_create_lem :
    (m : Manager) (token : String)
    → let (after, s) = get_or_create m token in
      (get_or_create after token ≡ (after, s))
      × (lookup token after.sessions ≡ some s)
      × ((k : String) → token ≢ k → lookup k after.sessions ≡ lookup k m.sessions)
      × ((get_or_create (delete m token) token).1
          ≡ record (new_session token) { disable_system_messages = m.disable_system_messages })
unfolding delete
get_or_create_lem m token =
    let gone : lookup token (erase token m.sessions) ≡ none =
      lookup-erase token token m.sessions ∙ ground (arith, eq_iff token token) in
    let anew = ap (λ p. p.1) (new_room (delete m token) token gone) in
    elim (Option-cases (lookup token m.sessions)) [
      | inr (s, e) ↦ rw (found_room m token s e) (found_room m token s e, e, λ k ne. refl, anew)
      | inl e ↦
          let s = empty_room m token in
          let there : lookup token (insert token s m.sessions) ≡ some s =
            lookup-insert token token s m.sessions ∙ ground (arith, eq_iff token token) in
          rw (new_room m token e) (
            found_room (record m { sessions = insert token s m.sessions }) token s there,
            there,
            λ k ne. lookup-insert token k s m.sessions ∙ ground (arith, eq_iff token k),
            anew,
          )
    ]

or_true : (a b : Bool) → b ≡ true → a || b ≡ true
or_true a b e = ground arith

abbrev HasNoPath : String → String × Session → Type 0
HasNoPath id entry = get_attachment entry.1 id ≡ ""

-- What a search for an attachment must give: an entry of the rooms and its path, which is not empty,
-- or nothing where no room has a path.
abbrev pub IsFound : List (String × Session) → String → Option (String × String) → Type 0
IsFound rooms id none = All (HasNoPath id) rooms
IsFound rooms id (some (token, path)) =
    (any (λ p. p.0 =ₛ token && get_attachment p.1 id =ₛ path) rooms ≡ true) × (path ≢ "")

IsFound-here :
    (token : String) (s : Session) (rest : List (String × Session)) (id : String)
    → get_attachment s id =ₛ "" ≡ false
    → IsFound ((token, s) ∷ rest) id (some (token, get_attachment s id))
IsFound-here token s rest id e =
    let same : token =ₛ token ≡ true = ground (arith, eq_iff token token) in
    let path = get_attachment s id in
    let agrees : path =ₛ path ≡ true = ground (arith, eq_iff path path) in
    (rw (same, agrees) refl, ground (arith, eq_iff (get_attachment s id) ""))

IsFound-later :
    (token : String) (s : Session) (rest : List (String × Session)) (id : String)
    (found : Option (String × String))
    → get_attachment s id =ₛ "" ≡ true
    → IsFound rest id found
    → IsFound ((token, s) ∷ rest) id found
IsFound-later token s rest id none e h = (ground (arith, eq_iff (get_attachment s id) ""), h)
IsFound-later token s rest id (some (other, path)) e (h, full) = (or_true _ _ h, full)

find_attachment-IsFound :
    (rooms : List (String × Session)) (id : String)
    → IsFound rooms id (find_attachment rooms id)
      × (find_path rooms id ≡ option_map (λ p. p.1) (find_attachment rooms id))
unfolding find_attachment find_path
find_attachment-IsFound [] id = (tt, refl)
find_attachment-IsFound ((token, s) ∷ rest) id =
    let (found, same) = find_attachment-IsFound rest id in
    elim (Bool-cases (get_attachment s id =ₛ "")) [
      | inl e ↦ rw e (IsFound-later token s rest id _ e found, same)
      | inr e ↦ rw e (IsFound-here token s rest id e, refl)
    ]

-- The two searches for an attachment agree: each finds a path that some room, the one whose token is
-- told, has for the id, and finds nothing only if no room has a path for it.
pub find_attachment_lem :
    (m : Manager) (id : String)
    → IsFound m.sessions id (get_attachment_token_and_path m id)
      × (get_attachment_path_by_id m id
          ≡ option_map (λ p. p.1) (get_attachment_token_and_path m id))
unfolding get_attachment_token_and_path get_attachment_path_by_id
find_attachment_lem m id = find_attachment-IsFound m.sessions id
