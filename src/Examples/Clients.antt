-- ===== src/Examples/Clients.antt =====
-- The queues, the themes and the registry of pkg/chat/v2/session at concrete inputs.
use eqrcp.Base.{
  inl, inr, Bool-cases, ℕ, ◌≡◌, refl, String, true, false, not, ◌||◌, [], ◌∷◌, ltb, arith, ◌=ₛ◌,
  if◌then◌else◌,
}
use eqrcp.Base.Int.{pos}
use eqrcp.Session.Event.{EventEnvelope}
use eqrcp.Session.Room.Client.{is_desktop_peer}
use eqrcp.Session.Room.Queue.{
  Conn, Steps, done, step, send_accepted, new_conn, close_with_reason, IsOrdered, Steps-IsOrdered,
}
use eqrcp.Session.Room.Themes.{ClientInfo, ThemeText, valid_chat_theme}
use eqrcp.Session.Registry.{Manager}
use eqrcp.Examples.Rooms.{go_library, room, event_at}

abbrev hello : EventEnvelope
hello = event_at (pos 1) 0

abbrev one_queued : Conn
one_queued = record new_conn { accepted = hello ∷ []; queue = hello ∷ [] }

sends_hello : Steps new_conn one_queued
sends_hello = step one_queued (send_accepted hello (ground arith)) done

Steps-IsOrdered_example : IsOrdered one_queued
Steps-IsOrdered_example =
    Steps-IsOrdered new_conn one_queued sends_hello (ground arith, ([], refl, refl))

abbrev replaced : Conn
replaced = close_with_reason "replaced_by_peer" one_queued

abbrev theme_text : ThemeText
theme_text = record {
  has_prefix = λ s prefix. not (s =ₛ "");
  trim_prefix = λ s prefix. s;
  parses_int = λ s. s =ₛ "theme-7" || s =ₛ "theme-8";
}

abbrev draws : ℕ → String
draws n = if ltb n 1 then "theme-7" else "theme-8"

draws_valid : (n : ℕ) → valid_chat_theme theme_text (draws n) ≡ true
unfolding valid_chat_theme
draws_valid n = elim (Bool-cases (ltb n 1)) [ inl e ↦ rw e refl | inr e ↦ rw e refl ]

abbrev scan : ClientInfo
scan = record {
  token = "t";
  label = "Phone";
  avatar = "";
  theme = "";
  peer = "p1";
  join = "j";
  local_join = "";
  is_new_scan = true;
}

abbrev reload : ClientInfo
reload = record scan { join = ""; is_new_scan = false }

phone_is_no_desk : is_desktop_peer go_library "p1" ≡ false
unfolding is_desktop_peer
phone_is_no_desk = refl

abbrev rooms : Manager
rooms = record {
  sessions = ("t", record room { attachments = ("f", "/tmp/f") ∷ [] }) ∷ [];
  disable_system_messages = true;
}
