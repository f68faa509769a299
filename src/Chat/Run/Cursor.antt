-- ===== src/Chat/Run/Cursor.antt =====
-- A page that asks a chatSession of pkg/server/chat.go for what is newer than its cursor is given every
-- change: `messagesAfterSeq` with the numbers of the events.
use eqrcp.Base.{
  ℕ, suc, ◌+◌, ◌≤◌, ◌<◌, ◌≡◌, ap, subst, ◌⊎◌, ◌∙◌, sym, inl, inr, true, ◌&&◌, List, [], ◌∷◌, length,
  arith, All, Bool-cases,
}
use eqrcp.Base.Int.{pos, ltb_ℤ}
use eqrcp.Base.Int64.{max_int64, add64, add64_pos}
use eqrcp.Base.Clock.{Time}
use eqrcp.Chat.{TextLibrary, ChatMessage, ChatSession}
use eqrcp.Chat.Messages.{messages_after_seq}
use eqrcp.Chat.Run.{Call, step, run}
use eqrcp.Chat.Run.Numbered.{In, next_seq, OldOr}
use eqrcp.Chat.Run.Steps.{step-IsNumbered}

All-In :
    (P : ChatMessage → Type 0) (ms : List ChatMessage) (m : ChatMessage) → All P ms → In m ms → P m
All-In P [] m _ there = elim there [ ]
All-In P (n ∷ ms) m (here, rest) (inl e) = subst P (sym e) here
All-In P (n ∷ ms) m (here, rest) (inr later) = All-In P ms m rest later

-- A number above the cursor.
abbrev IsNewer : ℕ → ChatMessage → Type 0
IsNewer e m = (k : ℕ) × (m.seq ≡ pos k) × (e < k)

abbrev OldOrNewer : ChatSession → ℕ → ChatMessage → Type 0
OldOrNewer s e m = In m s.messages ⊎ IsNewer e m

module _ (x : TextLibrary) where
  step_newer :
      (call : Call) (now : Time) (s : ChatSession) (e : ℕ) (m : ChatMessage)
      → s.event_seq ≡ pos e
      → suc e ≤ max_int64
      → In m (step x call now s).messages
      → OldOrNewer s e m
  step_newer call now s e m seq fits there =
      let (_, all) = step-IsNumbered x call now s in
      elim (All-In (OldOr (next_seq s) s.messages) (step x call now s).messages m all there) [
        | inl old ↦ inl old
        | inr new ↦ inr (
          e + 1,
          new ∙ (ap (λ n. add64 n (pos 1)) seq ∙ add64_pos e 1 (omega arith)),
          omega arith,
        )
      ]

  step_seq :
      (call : Call) (now : Time) (s : ChatSession) (e : ℕ)
      → s.event_seq ≡ pos e
      → suc e ≤ max_int64
      → (k : ℕ) × ((step x call now s).event_seq ≡ pos k) × (e ≤ k) × (k ≤ suc e)
  step_seq call now s e seq fits =
      let (counted, _) = step-IsNumbered x call now s in
      elim counted [
        | inl next ↦ (
          e + 1,
          next ∙ (ap (λ n. add64 n (pos 1)) seq ∙ add64_pos e 1 (omega arith)),
          omega arith,
          omega arith,
        )
        | inr same ↦ (e, same ∙ seq, omega arith, omega arith)
      ]

  run_newer :
      (calls : List (Time × Call)) (s : ChatSession) (e : ℕ) (m : ChatMessage)
      → s.event_seq ≡ pos e
      → e + length calls ≤ max_int64
      → In m (run x calls s).messages
      → OldOrNewer s e m
  unfolding run
  run_newer [] s e m seq fits there = inl there
  run_newer ((now, call) ∷ calls) s e m seq fits there =
      let s' = step x call now s in
      let (k, seq', above, below) = step_seq call now s e seq (omega arith) in
      elim (run_newer calls s' k m seq' (omega arith) there) [
        | inl old ↦ step_newer call now s e m seq (omega arith) old
        | inr (j, at_j, newer) ↦ inr (j, at_j, omega arith)
      ]

In-messages_after_seq :
    (ms : List ChatMessage) (m : ChatMessage) (join e : ℕ)
    → In m ms
    → ltb_ℤ (pos join) m.created_seq ≡ true
    → ltb_ℤ (pos e) m.seq ≡ true
    → In m (messages_after_seq ms (pos join) (pos e))
unfolding messages_after_seq
In-messages_after_seq [] m join e there created newer = elim there [ ]
In-messages_after_seq (n ∷ ms) m join e (inl same) created newer =
    let c : ltb_ℤ (pos join) n.created_seq ≡ true =
      ap (λ k. ltb_ℤ (pos join) k.created_seq) (sym same) ∙ created in
    let d : ltb_ℤ (pos e) n.seq ≡ true = ap (λ k. ltb_ℤ (pos e) k.seq) (sym same) ∙ newer in
    let page : messages_after_seq (n ∷ ms) (pos join) (pos e)
        ≡ n ∷ messages_after_seq ms (pos join) (pos e) =
      ground (arith, c, d) in
    subst (In m) (sym page) (inl same)
In-messages_after_seq (n ∷ ms) m join e (inr later) created newer =
    let rest = messages_after_seq ms (pos join) (pos e) in
    let found = In-messages_after_seq ms m join e later created newer in
    elim (Bool-cases (ltb_ℤ (pos e) n.seq && ltb_ℤ (pos join) n.created_seq)) [
      | inl shown ↦
          let page : messages_after_seq (n ∷ ms) (pos join) (pos e) ≡ n ∷ rest =
            ground (arith, shown) in
          subst (In m) (sym page) (inr found)
      | inr left_out ↦
          let page : messages_after_seq (n ∷ ms) (pos join) (pos e) ≡ rest =
            ground (arith, left_out) in
          subst (In m) (sym page) found
    ]

-- What a page is sent for its cursor, the last number that it has seen, holds every message of the
-- history that was added or changed since, by any calls, for the messages made after the page joined
-- and while the numbers fit in an int64.
pub messages_after_seq_complete :
    (x : TextLibrary) (calls : List (Time × Call)) (s : ChatSession) (cursor join : ℕ)
    (m : ChatMessage)
    → s.event_seq ≡ pos cursor
    → cursor + length calls ≤ max_int64
    → In m (run x calls s).messages
    → ltb_ℤ (pos join) m.created_seq ≡ true
    → In m s.messages ⊎ In m (messages_after_seq (run x calls s).messages (pos join) (pos cursor))
messages_after_seq_complete x calls s cursor join m seq fits there created =
    elim (run_newer x calls s cursor m seq fits there) [
      | inl old ↦ inl old
      | inr (k, at_k, newer) ↦ inr (
          In-messages_after_seq (run x calls s).messages m join cursor there created
            (ground (arith, at_k)))
    ]
