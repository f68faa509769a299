-- ===== src/Session/Room/Themes.antt =====
-- pkg/chat/v2/session/session.go: `AssignTheme` and what it calls. The random themes are a sequence
-- of draws; a call is given the number of the next one.
use eqrcp.Base.{
  ℕ, zero, suc, String, Bool, not, ◌&&◌, ◌||◌, List, Option, none, some, any, ◌=ₛ◌, if◌then◌else◌,
}
use eqrcp.Base.Assoc.{lookup, insert}
use eqrcp.Session.Room.Client.{Client, Session, Host, is_desktop_peer}

-- pkg/chat/v2/protocol/commands.go.
pub record ClientInfo : Type 0 where
  pub token : String
  pub label : String
  pub avatar : String
  pub theme : String
  pub peer : String
  pub join : String
  pub local_join : String
  pub is_new_scan : Bool

-- `strings.HasPrefix`, `strings.TrimPrefix`, and whether `strconv.ParseInt` reads the text in base
-- 10 and 64 bits.
pub record ThemeText : Type 0 where
  pub has_prefix : (s prefix : String) → Bool
  pub trim_prefix : (s prefix : String) → String
  pub parses_int : String → Bool

unfoldable pub valid_chat_theme : ThemeText → String → Bool
valid_chat_theme x theme =
    x.has_prefix theme "theme-" && x.parses_int (x.trim_prefix theme "theme-")

unfoldable pub theme_in_use_by_other : List (String × String) → String → String → Bool
theme_in_use_by_other themes peer theme = any (λ p. not (p.0 =ₛ peer) && p.1 =ₛ theme) themes

abbrev pub text_or_empty : Option String → String
text_or_empty none = ""
text_or_empty (some theme) = theme

unfoldable pub get_client_theme : Session → String → String
get_client_theme s peer = text_or_empty (lookup peer s.client_themes)

module _ (draws : ℕ → String) where
  -- The loop over the tries, and the number of the next draw.
  unfoldable pub random_chat_theme : ℕ → List (String × String) → String → ℕ → String × ℕ
  random_chat_theme zero themes peer i = (draws i, suc i)
  random_chat_theme (suc tries) themes peer i =
      let rest = random_chat_theme tries themes peer (suc i) in
      if theme_in_use_by_other themes peer (draws i) then rest else (draws i, suc i)

  -- The loop that looks for a theme other than the old one.
  unfoldable pub redraw : ℕ → List (String × String) → String → String → String → ℕ → String
  redraw zero themes peer old theme i = theme
  redraw (suc tries) themes peer old theme i =
      let (drawn, next) = random_chat_theme 8 themes peer i in
      let rest = redraw tries themes peer old drawn next in if drawn =ₛ old then rest else drawn

  unfoldable pub draw_theme : List (String × String) → String → String → ℕ → String
  draw_theme themes peer old i =
      let (theme, next) = random_chat_theme 8 themes peer i in
      let other = redraw 5 themes peer old theme next in
      if theme =ₛ old && not (old =ₛ "") then other else theme

module _ (h : Host) (x : ThemeText) (draws : ℕ → String) where
  abbrev pub take_theme : Session → Client → String → Session × Client
  take_theme s c theme =
      (record s { client_themes = insert c.peer theme s.client_themes }, record c { theme = theme })

  unfoldable pub assign_theme : Session → Client → ClientInfo → ℕ → Session × Client
  assign_theme s c info i =
      let join = h.trim_space info.join in
      let existing = get_client_theme s c.peer in
      let drawn = draw_theme draws s.client_themes c.peer existing i in
      let (drawn_room, drawn_client) = take_theme s c drawn in
      let fresh : Session × Client = (
        record drawn_room {
          client_theme_joins =
              if join =ₛ "" then s.client_theme_joins else insert c.peer join s.client_theme_joins;
        },
        drawn_client,
      ) in
      if is_desktop_peer h info.peer || is_desktop_peer h c.peer
      then take_theme s c "theme-0"
      else if not (join =ₛ "") || info.is_new_scan
      then fresh
      else if valid_chat_theme x existing
      then (s, record c { theme = existing })
      else if valid_chat_theme x info.theme
          && not (theme_in_use_by_other s.client_themes c.peer info.theme)
      then take_theme s c info.theme
      else fresh
