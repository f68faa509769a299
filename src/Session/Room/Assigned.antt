-- ===== src/Session/Room/Assigned.antt =====
-- The theme that a client gets.
use eqrcp.Base.{
  ℕ, ◌≡◌, ◌≢◌, refl, ap, ◌∙◌, sym, ◌⊎◌, inl, inr, Bool-cases, Option-cases, String, true, false,
  not, ◌&&◌, ◌||◌, List, some, arith, eq_iff, ◌=ₛ◌,
}
use eqrcp.Base.Assoc.{lookup, lookup-insert}
use eqrcp.Session.Room.Client.{Client, Session, Host, is_desktop_peer}
use eqrcp.Session.Room.Themes.{
  ClientInfo, ThemeText, valid_chat_theme, theme_in_use_by_other, text_or_empty, get_client_theme,
  draw_theme, take_theme, assign_theme,
}
use eqrcp.Session.Room.Draws.{
  IsFreeOrCrowded, draw_theme_holds, draws_hold, random_chat_theme-IsFreeOrCrowded,
}

-- The room keeps the theme under the peer of the client; no other peer's theme, no client of the
-- room and no other field of the client changes.
pub record IsKept (s : Session) (c : Client) (result : Session × Client) : Type 0 where
  pub kept : lookup c.peer result.0.client_themes ≡ some result.1.theme
  pub others :
      (k : String) → c.peer ≢ k → lookup k result.0.client_themes ≡ lookup k s.client_themes
  pub clients : result.0.clients ≡ s.clients
  pub client : result.1 ≡ record c { theme = result.1.theme }

module _ (h : Host) (x : ThemeText) (draws : ℕ → String) where
  take_theme-IsKept :
      (s : Session) (c : Client) (theme : String) → IsKept s c (take_theme h x draws s c theme)
  take_theme-IsKept s c theme = record {
    kept = lookup-insert c.peer c.peer theme s.client_themes ∙ ground (arith, eq_iff c.peer c.peer);
    others = λ k ne. lookup-insert c.peer k theme s.client_themes ∙ ground (arith, eq_iff c.peer k);
    clients = refl;
    client = refl;
  }

  fresh-IsKept :
      (s : Session) (c : Client) (theme : String) (joins : List (String × String))
      → let (room, client) = take_theme h x draws s c theme in
        IsKept s c (record room { client_theme_joins = joins }, client)
  fresh-IsKept s c theme joins =
      let taken = take_theme-IsKept s c theme in
      record { kept = taken.kept; others = taken.others; clients = refl; client = refl }

  existing-IsKept :
      (s : Session) (c : Client)
      → valid_chat_theme x "" ≡ false
      → valid_chat_theme x (get_client_theme s c.peer) ≡ true
      → IsKept s c (s, record c { theme = get_client_theme s c.peer })
  unfolding get_client_theme
  existing-IsKept s c no_empty valid = record {
    kept = elim (Option-cases (lookup c.peer s.client_themes)) [
      | inl e ↦
          let none_valid =
            sym valid ∙ (ap (λ o. valid_chat_theme x (text_or_empty o)) e ∙ no_empty) in
          cc
      | inr (t, e) ↦ rw e refl
    ];
    others = λ k ne. refl;
    clients = refl;
    client = refl;
  }

  -- Whatever the choice, a client gets the theme that the room then keeps for its peer, and
  -- nothing changes for the other peers, provided that the empty text is no theme.
  pub assign_theme-IsKept :
      (s : Session) (c : Client) (info : ClientInfo) (i : ℕ)
      → valid_chat_theme x "" ≡ false
      → IsKept s c (assign_theme h x draws s c info i)
  unfolding assign_theme
  assign_theme-IsKept s c info i no_empty =
      let existing = get_client_theme s c.peer in
      elim (Bool-cases (is_desktop_peer h info.peer || is_desktop_peer h c.peer)) [
        | inl desk ↦ rw desk (take_theme-IsKept s c "theme-0")
        | inr e ↦ rw e (elim (Bool-cases (not (h.trim_space info.join =ₛ "") || info.is_new_scan)) [
          | inl scan ↦ rw scan (fresh-IsKept s c _ _)
          | inr f ↦ rw f (elim (Bool-cases (valid_chat_theme x existing)) [
            | inl valid ↦ rw valid (existing-IsKept s c no_empty valid)
            | inr g ↦
                rw g
                  (elim (Bool-cases (
                    valid_chat_theme x info.theme
                    && not (theme_in_use_by_other s.client_themes c.peer info.theme))) [
                      | inl wish ↦ rw wish (take_theme-IsKept s c info.theme)
                      | inr k ↦ rw k (fresh-IsKept s c _ _)
                    ])
          ])
        ])
      ]

  -- What holds of the theme that the peer has, of the wish of the client and of the drawn theme holds
  -- of the theme that a client other than the desktop gets.
  assign_theme_holds :
      (P : String → Type 0) (s : Session) (c : Client) (info : ClientInfo) (i : ℕ)
      → is_desktop_peer h info.peer || is_desktop_peer h c.peer ≡ false
      → (valid_chat_theme x (get_client_theme s c.peer) ≡ true → P (get_client_theme s c.peer))
      → (valid_chat_theme x info.theme
              && not (theme_in_use_by_other s.client_themes c.peer info.theme)
            ≡ true
          → P info.theme)
      → P (draw_theme draws s.client_themes c.peer (get_client_theme s c.peer) i)
      → P (assign_theme h x draws s c info i).1.theme
  unfolding assign_theme
  assign_theme_holds P s c info i guest has wishes drawn =
      rw guest (elim (Bool-cases (not (h.trim_space info.join =ₛ "") || info.is_new_scan)) [
        | inl scan ↦ rw scan drawn
        | inr f ↦ rw f (elim (Bool-cases (valid_chat_theme x (get_client_theme s c.peer))) [
          | inl valid ↦ rw valid (has valid)
          | inr g ↦
              rw g
                (elim (Bool-cases (
                  valid_chat_theme x info.theme
                  && not (theme_in_use_by_other s.client_themes c.peer info.theme))) [
                    | inl wish ↦ rw wish (wishes wish)
                    | inr k ↦ rw k drawn
                  ])
        ])
      ])

  -- A client other than the desktop gets the theme that its peer had before, or one that no other
  -- peer has, unless eight draws in a row were all taken by other peers.
  pub assign_theme-IsFreeOrCrowded :
      (s : Session) (c : Client) (info : ClientInfo) (i : ℕ)
      → is_desktop_peer h info.peer || is_desktop_peer h c.peer ≡ false
      → let theme = (assign_theme h x draws s c info i).1.theme in
        (theme ≡ get_client_theme s c.peer) ⊎ IsFreeOrCrowded draws s.client_themes c.peer theme
  assign_theme-IsFreeOrCrowded s c info i guest =
      assign_theme_holds
        (λ theme.
          (theme ≡ get_client_theme s c.peer) ⊎ IsFreeOrCrowded draws s.client_themes c.peer theme)
        s c info i guest (λ valid. inl refl) (λ wish. inr (inl (ground arith)))
        (inr (
          draw_theme_holds (IsFreeOrCrowded draws s.client_themes c.peer) draws s.client_themes
            c.peer (get_client_theme s c.peer) i
            (random_chat_theme-IsFreeOrCrowded draws s.client_themes c.peer)))

  assign_theme_valid :
      (s : Session) (c : Client) (info : ClientInfo) (i : ℕ)
      → is_desktop_peer h info.peer || is_desktop_peer h c.peer ≡ false
      → ((n : ℕ) → valid_chat_theme x (draws n) ≡ true)
      → valid_chat_theme x (assign_theme h x draws s c info i).1.theme ≡ true
  assign_theme_valid s c info i guest all =
      let Valid : String → Type 0 = λ theme. valid_chat_theme x theme ≡ true in
      assign_theme_holds Valid s c info i guest (λ valid. valid) (λ wish. ground arith)
        (draw_theme_holds Valid draws s.client_themes c.peer (get_client_theme s c.peer) i
          (λ n. draws_hold Valid draws 8 s.client_themes c.peer n all))

  reuses_theme :
      (s : Session) (c : Client) (info : ClientInfo) (i : ℕ)
      → is_desktop_peer h info.peer || is_desktop_peer h c.peer ≡ false
      → not (h.trim_space info.join =ₛ "") || info.is_new_scan ≡ false
      → get_client_theme s c.peer ≡ c.theme
      → valid_chat_theme x c.theme ≡ true
      → assign_theme h x draws s c info i ≡ (s, c)
  unfolding assign_theme
  reuses_theme s c info i guest no_scan found valid =
      let still : valid_chat_theme x (get_client_theme s c.peer) ≡ true =
        ap (valid_chat_theme x) found ∙ valid in
      rw (guest, no_scan, still) (ap (λ theme. (s, record c { theme = theme })) found)

  -- A reconnection without a new scan keeps the theme: once a client other than the desktop has got
  -- one, by whatever choice, a later call for it with no join token and no scan changes nothing in
  -- the room or the client. The draws are themes, and the empty text is none.
  pub assign_theme_stable :
      (s : Session) (c : Client) (info info' : ClientInfo) (i i' : ℕ)
      → valid_chat_theme x "" ≡ false
      → ((n : ℕ) → valid_chat_theme x (draws n) ≡ true)
      → is_desktop_peer h info.peer || is_desktop_peer h c.peer ≡ false
      → is_desktop_peer h info'.peer ≡ false
      → not (h.trim_space info'.join =ₛ "") || info'.is_new_scan ≡ false
      → let (s', c') = assign_theme h x draws s c info i in
        assign_theme h x draws s' c' info' i' ≡ (s', c')
  unfolding get_client_theme
  assign_theme_stable s c info info' i i' no_empty all guest guest' no_scan =
      let (s', c') = assign_theme h x draws s c info i in
      let is_kept = assign_theme-IsKept s c info i no_empty in
      let same_peer : c'.peer ≡ c.peer = ap (λ d. d.peer) is_kept.client in
      let not_desk : is_desktop_peer h c'.peer ≡ false =
        ap (is_desktop_peer h) same_peer ∙ ground arith in
      reuses_theme s' c' info' i' (ground arith) no_scan
        (ap text_or_empty (ap (λ p. lookup p s'.client_themes) same_peer ∙ is_kept.kept))
        (assign_theme_valid s c info i guest all)
