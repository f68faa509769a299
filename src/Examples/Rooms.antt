-- ===== src/Examples/Rooms.antt =====
-- pkg/chat/v2/session at concrete inputs.
use eqrcp.Base.{ℕ, ◌≡◌, refl, String, true, false, [], ◌∷◌, some, All, keep, arith, eq_iff, ◌=ₛ◌}
use Prim.Native.String.{◌++◌ as joined}
use eqrcp.Base.Int.{ℤ, pos}
use eqrcp.Base.Assoc.{lookup}
use eqrcp.Session.Event.{EventEnvelope, Message, message_added, text}
use eqrcp.Session.Store.{MessageStore, add}
use eqrcp.Session.Store.Numbering.{IsNumbered, add-IsNumbered}
use eqrcp.Session.History.{in_range, newest, normalize_history_limit, select_message_history_page}
use eqrcp.Session.History.Paging.{load_all, load_all_complete}
use eqrcp.Session.Room.Client.{Client, Host, Session, envelope}
use eqrcp.Session.Room.Members.{blank_message, register}
use eqrcp.Session.Room.Peers.{OnePerPeer, register-OnePerPeer}
use eqrcp.Session.Room.Replay.{SendsAfter, register-SendsAfter}

abbrev pub go_library : Host
go_library = record {
  trim_space = λ s. s;
  equal_fold = λ s t. s =ₛ t;
  concat = joined;
  sort_by_join_time = λ cs. cs;
}

abbrev pub phone : Client
phone = record {
  id = "c1";
  label = "Phone";
  avatar = "";
  theme = "";
  peer = "p1";
  token = "t";
  join = "";
  local_join = "";
  last_seen = 5;
  join_time = 5;
  kicked = false;
}

abbrev pub tablet : Client
tablet = record phone { id = "c2"; label = "Tablet"; peer = "p2" }

-- The phone after a reload of its page.
abbrev phone_again : Client
phone_again = record phone { id = "c3"; label = "My phone" }

abbrev pub event_at : ℤ → ℕ → EventEnvelope
event_at n a = record (envelope message_added "" 9) { seq = n; message = some a }

abbrev message_of : String → String → Message
message_of id sender_id = record (blank_message id text "hello" 9) { sender_id = sender_id }

abbrev log : MessageStore
log = record {
  events = event_at (pos 1) 0 ∷ event_at (pos 2) 1 ∷ event_at (pos 3) 0 ∷ [];
  next_seq = pos 4;
  heap = message_of "m" "p1" ∷ message_of "n" "p2" ∷ [];
}

abbrev pub room : Session
room = record {
  token = "t";
  clients = ("c1", phone) ∷ ("c2", tablet) ∷ [];
  store = log;
  client_themes = [];
  client_theme_joins = [];
  attachments = [];
  disable_system_messages = false;
}

log-IsNumbered : IsNumbered log
log-IsNumbered = record { numbered = (refl, (refl, (refl, tt))); next = refl }

add-IsNumbered_example :
    IsNumbered (add log (event_at (pos 0) 1) 7).0 × ((add log (event_at (pos 0) 1) 7).1.seq ≡ pos 4)
add-IsNumbered_example = add-IsNumbered log (event_at (pos 0) 1) 7 (ground arith) log-IsNumbered

two_newest :
    select_message_history_page log (pos 0) (pos 0) (pos 2)
    ≡ (event_at (pos 2) 1 ∷ event_at (pos 3) 0 ∷ [], true)
unfolding select_message_history_page newest normalize_history_limit in_range
two_newest = refl

load_all_complete_example :
    load_all 4 log (pos 0) (pos 0) (pos 2) ≡ keep (in_range (pos 0) (pos 0)) log.events
load_all_complete_example =
    load_all_complete 4 log (pos 0) (pos 0) (pos 2) log-IsNumbered (unfold in_range in ground arith)

room-OnePerPeer : OnePerPeer room
unfolding lookup
room-OnePerPeer = record {
  keyed = λ k c e. ground (arith, eq_iff k "c1", eq_iff k "c2");
  one = λ k j c d e f same.
      ground (arith, eq_iff k "c1", eq_iff k "c2", eq_iff j "c1", eq_iff j "c2", eq_iff "p1" "p2");
}

register-OnePerPeer_example :
    let after = (register go_library room phone_again (pos 0) (pos 0) 20 "s").0 in
    OnePerPeer after
    × (lookup "c3" after.clients ≡ some phone_again)
    × ((k : String) (d : Client) → lookup k after.clients ≡ some d → d.peer ≡ "p1" → k ≡ "c3")
register-OnePerPeer_example =
    register-OnePerPeer go_library room phone_again (pos 0) (pos 0) 20 "s" room-OnePerPeer

register-SendsAfter_example :
    let (after, effects) = register go_library room phone_again (pos 0) (pos 2) 20 "s" in
    IsNumbered after.store × All (SendsAfter (pos 2)) effects
register-SendsAfter_example =
    register-SendsAfter go_library room phone_again (pos 0) (pos 2) 20 "s" log-IsNumbered
      (ground arith) (ground arith) (ground arith)
