-- ===== src/Chat/Themes.antt =====
-- pkg/server/chat.go: the themes of the devices of a chatSession. The random themes of a call are a
-- sequence of draws.
use eqrcp.Base.{
  ℕ, zero, suc, String, Bool, true, false, not, ◌&&◌, ◌||◌, List, Option, none, some, any, ◌=ₛ◌,
  if◌then◌else◌,
}
use eqrcp.Base.Int.{ℤ, pos, leb_ℤ}
use eqrcp.Base.Distinct.{has}
use eqrcp.Base.Assoc.{lookup, insert}
use eqrcp.Chat.{TextLibrary, ChatSession, text_or_empty}

unfoldable pub valid_host_token : ChatSession → String → Bool
valid_host_token s token = not (s.host_token =ₛ "") && token =ₛ s.host_token

unfoldable pub theme_in_use_by_other_client :
    List (String × String) → (client theme : String) → Bool
theme_in_use_by_other_client themes client theme =
    any (λ p. not (p.0 =ₛ client) && p.1 =ₛ theme) themes

unfoldable pub random_chat_theme_locked :
    (tries : ℕ) → (ℕ → String) → List (String × String) → String → String
random_chat_theme_locked zero draws themes client = draws 0
random_chat_theme_locked (suc tries) draws themes client =
    let rest = random_chat_theme_locked tries (λ i. draws (suc i)) themes client in
    if theme_in_use_by_other_client themes client (draws 0) then rest else draws 0

module _ (x : TextLibrary) where
  open x use {trim_space, equal_fold, has_prefix, trim_prefix, parse_int}

  abbrev in_range : Option ℤ → Bool
  in_range none = false
  in_range (some n) = leb_ℤ (pos 0) n && leb_ℤ n (pos 2_147_483_647)

  unfoldable pub valid_chat_theme : String → Bool
  valid_chat_theme theme =
      if not (has_prefix theme "theme-")
      then false
      else in_range (parse_int (trim_prefix theme "theme-"))

  unfoldable pub is_desktop_chat_client : ChatSession → (token peer : String) → Bool
  is_desktop_chat_client s token peer =
      if valid_host_token s token then true else equal_fold (trim_space peer) "desktop"

  unfoldable pub chat_theme_for_client_locked :
      ChatSession → (token peer join : String) → (ℕ → String) → ChatSession × String
  chat_theme_for_client_locked s token peer join draws =
      let client = trim_space token in
      let room = trim_space join in
      let theme = text_or_empty (lookup client s.client_themes) in
      let drawn = random_chat_theme_locked 8 draws s.client_themes client in
      if client =ₛ ""
      then (s, "theme-0")
      else if is_desktop_chat_client s client peer
      then (record s { client_themes = insert client "theme-0" s.client_themes }, "theme-0")
      else if not (room =ₛ "") && has room s.kicked_joins
      then (s, "")
      else if valid_chat_theme theme
          && (room =ₛ "" || text_or_empty (lookup client s.client_theme_joins) =ₛ room)
      then (s, theme)
      else (
        record s {
          client_themes = insert client drawn s.client_themes;
          client_theme_joins =
              if room =ₛ "" then s.client_theme_joins else insert client room s.client_theme_joins;
        },
        drawn,
      )
