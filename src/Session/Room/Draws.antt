-- ===== src/Session/Room/Draws.antt =====
-- What is true of the random draws of themes.
use eqrcp.Base.{
  ℕ, zero, suc, ◌+◌, ◌<◌, ◌≡◌, ap, ◌∙◌, ◌⊎◌, inl, inr, Bool-cases, String, true, false, not, ◌&&◌,
  List, arith, ◌=ₛ◌,
}
use eqrcp.Session.Room.Themes.{theme_in_use_by_other, random_chat_theme, redraw, draw_theme}

-- No other peer has the theme, or eight draws in a row had been given to other peers.
abbrev pub IsFreeOrCrowded : (ℕ → String) → List (String × String) → String → String → Type 0
IsFreeOrCrowded draws themes peer theme =
    (theme_in_use_by_other themes peer theme ≡ false)
    ⊎ ((n : ℕ) × ((j : ℕ) → j < 8 → theme_in_use_by_other themes peer (draws (n + j)) ≡ true))

shift_used :
    (draws : ℕ → String) (tries : ℕ) (themes : List (String × String)) (peer : String) (i : ℕ)
    → theme_in_use_by_other themes peer (draws i) ≡ true
    → ((j : ℕ) → j < tries → theme_in_use_by_other themes peer (draws (suc i + j)) ≡ true)
    → (j : ℕ) → j < suc tries
    → theme_in_use_by_other themes peer (draws (i + j)) ≡ true
shift_used draws tries themes peer i used all zero less =
    let e : i + 0 ≡ i = omega arith in
    ap (λ n. theme_in_use_by_other themes peer (draws n)) e ∙ used
shift_used draws tries themes peer i used all (suc k) less =
    let e : i + suc k ≡ suc i + k = omega arith in
    ap (λ n. theme_in_use_by_other themes peer (draws n)) e ∙ all k (omega arith)

random_chat_theme_lem :
    (draws : ℕ → String) (tries : ℕ) (themes : List (String × String)) (peer : String) (i : ℕ)
    → (theme_in_use_by_other themes peer (random_chat_theme draws tries themes peer i).0 ≡ false)
      ⊎ ((j : ℕ) → j < tries → theme_in_use_by_other themes peer (draws (i + j)) ≡ true)
unfolding random_chat_theme
random_chat_theme_lem draws zero themes peer i = inr (λ j less. absurd (omega arith))
random_chat_theme_lem draws (suc tries) themes peer i =
    elim (Bool-cases (theme_in_use_by_other themes peer (draws i))) [
      | inr free ↦ rw free (inl free)
      | inl used ↦ rw used (elim (random_chat_theme_lem draws tries themes peer (suc i)) [
        | inl free ↦ inl free
        | inr all ↦ inr (shift_used draws tries themes peer i used all)
      ])
    ]

-- What holds of each draw holds of the theme that is drawn.
pub draw_theme_holds :
    (P : String → Type 0) (draws : ℕ → String) (themes : List (String × String)) (peer old : String)
    (i : ℕ)
    → ((n : ℕ) → P (random_chat_theme draws 8 themes peer n).0)
    → P (draw_theme draws themes peer old i)
unfolding draw_theme redraw
draw_theme_holds P draws themes peer old i all =
    let (theme, next) = random_chat_theme draws 8 themes peer i in
    elim (Bool-cases (theme =ₛ old && not (old =ₛ ""))) [
      | inl again ↦ rw again (redrawn 5 theme next (all i))
      | inr new ↦ rw new (all i)
    ]
  where
    redrawn :
        (tries : ℕ) (theme : String) (n : ℕ)
        → P theme
        → P (redraw draws tries themes peer old theme n)
    redrawn zero theme n holds = holds
    redrawn (suc tries) theme n holds =
        let (drawn, next) = random_chat_theme draws 8 themes peer n in
        elim (Bool-cases (drawn =ₛ old)) [
          | inl same ↦ rw same (redrawn tries drawn next (all n))
          | inr other ↦ rw other (all n)
        ]

pub draws_hold :
    (P : String → Type 0) (draws : ℕ → String) (tries : ℕ) (themes : List (String × String))
    (peer : String) (n : ℕ)
    → ((i : ℕ) → P (draws i))
    → P (random_chat_theme draws tries themes peer n).0
unfolding random_chat_theme
draws_hold P draws zero themes peer n all = all n
draws_hold P draws (suc tries) themes peer n all =
    elim (Bool-cases (theme_in_use_by_other themes peer (draws n))) [
      | inl used ↦ rw used (draws_hold P draws tries themes peer (suc n) all)
      | inr free ↦ rw free (all n)
    ]

pub random_chat_theme-IsFreeOrCrowded :
    (draws : ℕ → String) (themes : List (String × String)) (peer : String) (n : ℕ)
    → IsFreeOrCrowded draws themes peer (random_chat_theme draws 8 themes peer n).0
random_chat_theme-IsFreeOrCrowded draws themes peer n =
    elim (random_chat_theme_lem draws 8 themes peer n) [
      | inl free ↦ inl free
      | inr all ↦ inr (n, all)
    ]
