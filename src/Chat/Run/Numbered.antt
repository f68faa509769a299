-- ===== src/Chat/Run/Numbered.antt =====
-- The numbers that the operations of a chatSession of pkg/server/chat.go give to the messages that they
-- add or change.
use eqrcp.Base.{
  ◌-◌, ◌≡◌, refl, ap, subst, ◌⊎◌, ◌∙◌, sym, inl, inr, String, List, [], ◌∷◌, Option, none, some,
  length, take, drop, leb, arith, All, All-append, All-drop, Bool-cases, Option-cases, ◌=ₛ◌,
}
use eqrcp.Base.Int.{ℤ, pos}
use eqrcp.Base.Int64.{add64}
use eqrcp.Base.Clock.{Time}
use eqrcp.Base.Assoc.{lookup}
use eqrcp.Chat.{TextLibrary, ChatMessage, ChatSession}
use eqrcp.Chat.Messages.{
  max_chat_history, drop_attachment, drop_attachments, trim_history_locked, append_message,
  Recalled, missing, refused, dropped, marked, blank, may_recall, recall_in, finish_recall,
}
use eqrcp.Chat.Progress.{change_first, finish_progress}

abbrev pub In : ChatMessage → List ChatMessage → Type 0
In m [] = ⊥
In m (n ∷ ms) = (m ≡ n) ⊎ In m ms

abbrev pub next_seq : ChatSession → ℤ
next_seq s = add64 s.event_seq (pos 1)

-- A message stands there as before, or has the next number.
abbrev pub OldOr : ℤ → List ChatMessage → ChatMessage → Type 0
OldOr next ms m = In m ms ⊎ (m.seq ≡ next)

-- What one call does to the messages: those that it changes or adds have the next number, and the
-- session counts it if there are any.
abbrev pub IsNumbered : ChatSession → ChatSession → Type 0
IsNumbered s s' =
    ((s'.event_seq ≡ next_seq s) ⊎ (s'.event_seq ≡ s.event_seq))
    × All (OldOr (next_seq s) s.messages) s'.messages

pub All-OldOr : (next : ℤ) (ms : List ChatMessage) → All (OldOr next ms) ms
All-OldOr next ms = go ms (λ m h. h)
  where
    go : (ns : List ChatMessage) → ((m : ChatMessage) → In m ns → In m ms) → All (OldOr next ms) ns
    go [] f = tt
    go (n ∷ ns) f = (inl (f n (inl refl)), go ns (λ m h. f m (inr h)))

pub IsNumbered-same :
    (s s' : ChatSession)
    → (s'.event_seq ≡ s.event_seq) × (s'.messages ≡ s.messages)
    → IsNumbered s s'
IsNumbered-same s s' (seq, messages) = (
  inr seq,
  subst (All (OldOr (next_seq s) s.messages)) (sym messages) (All-OldOr (next_seq s) s.messages),
)

drop_attachment-same :
    (s : ChatSession) (m : ChatMessage)
    → ((drop_attachment s m).event_seq ≡ s.event_seq)
      × ((drop_attachment s m).messages ≡ s.messages)
unfolding drop_attachment
drop_attachment-same s m = elim (Option-cases (lookup m.id s.attachments)) [
  | inl e ↦ rw (e, drop_attachment) (refl, refl)
  | inr (attachment, e) ↦ rw (e, drop_attachment) (ground arith)
]

drop_attachments-same :
    (s : ChatSession) (ms : List ChatMessage)
    → ((drop_attachments s ms).event_seq ≡ s.event_seq)
      × ((drop_attachments s ms).messages ≡ s.messages)
unfolding drop_attachments
drop_attachments-same s [] = (refl, refl)
drop_attachments-same s (m ∷ ms) =
    let (a, b) = drop_attachment-same s m in
    let (c, d) = drop_attachments-same (drop_attachment s m) ms in (c ∙ a, d ∙ b)

trim_history_locked-All :
    (P : ChatMessage → Type 0) (s : ChatSession)
    → All P s.messages
    → ((trim_history_locked s).event_seq ≡ s.event_seq) × All P (trim_history_locked s).messages
unfolding trim_history_locked
trim_history_locked-All P s h = elim (Bool-cases (leb (length s.messages) max_chat_history)) [
  | inl short ↦
      let e : trim_history_locked s ≡ s = ground arith in
      (ap (λ t. t.event_seq) e, subst (λ t. All P t.messages) (sym e) h)
  | inr long ↦
      let n = length s.messages - max_chat_history in
      let short = record s { messages = drop n s.messages } in
      let e : trim_history_locked s ≡ drop_attachments short (take n s.messages) = ground arith in
      let (seq, messages) = drop_attachments-same short (take n s.messages) in
      (
        ap (λ t. t.event_seq) e ∙ seq,
        subst (All P) (sym (ap (λ t. t.messages) e ∙ messages)) (All-drop P n s.messages h),
      )
]

All-wider :
    (next : ℤ) (m : ChatMessage) (ms ns : List ChatMessage)
    → All (OldOr next ms) ns
    → All (OldOr next (m ∷ ms)) ns
All-wider next m ms [] h = tt
All-wider next m ms (n ∷ ns) (inl old, h) = (inl (inr old), All-wider next m ms ns h)
All-wider next m ms (n ∷ ns) (inr new, h) = (inr new, All-wider next m ms ns h)

seq-blank : (x : TextLibrary) (m : ChatMessage) (next : ℤ) → (blank x m next).seq ≡ next
seq-blank x m next = ground arith

pub recall_in-All :
    (x : TextLibrary) (ms : List ChatMessage) (id sender token : String) (next : ℤ)
    → All (OldOr next ms) (recall_in x ms id sender token next).0
unfolding recall_in
recall_in-All x [] id sender token next = tt
recall_in-All x (m ∷ ms) id sender token next =
    let Goal = All (OldOr next (m ∷ ms)) in
    let result = (recall_in x (m ∷ ms) id sender token next).0 in
    let others = All-wider next m ms ms (All-OldOr next ms) in
    elim (Bool-cases (m.id =ₛ id)) [
      | inr other ↦
          let e : result ≡ m ∷ (recall_in x ms id sender token next).0 = ground arith in
          subst Goal (sym e) (
            inl (inl refl),
            All-wider next m ms (recall_in x ms id sender token next).0
                (recall_in-All x ms id sender token next),
          )
      | inl hit ↦ elim (Bool-cases (may_recall x m sender token)) [
        | inr refusal ↦
            let e : result ≡ m ∷ ms = ground arith in subst Goal (sym e) (All-OldOr next (m ∷ ms))
        | inl allowed ↦ elim (Bool-cases m.sending) [
          | inl sent ↦ let e : result ≡ ms = ground arith in subst Goal (sym e) others
          | inr still ↦
              let e : result ≡ blank x m next ∷ ms = ground arith in
              subst Goal (sym e) (inr (seq-blank x m next), others)
        ]
      ]
    ]

pub change_first-All :
    (ms : List ChatMessage) (id : String) (f : ChatMessage → ChatMessage) (next : ℤ)
    → ((m : ChatMessage) → (f m).seq ≡ next)
    → All (OldOr next ms) (change_first ms id f).0
unfolding change_first
change_first-All [] id f next h = tt
change_first-All (m ∷ ms) id f next h =
    let Goal = All (OldOr next (m ∷ ms)) in
    let result = (change_first (m ∷ ms) id f).0 in
    elim (Bool-cases (m.id =ₛ id)) [
      | inl hit ↦
          let e : result ≡ f m ∷ ms = ground arith in
          subst Goal (sym e) (inr (h m), All-wider next m ms ms (All-OldOr next ms))
      | inr other ↦
          let e : result ≡ m ∷ (change_first ms id f).0 = ground arith in
          subst Goal (sym e) (
            inl (inl refl),
            All-wider next m ms (change_first ms id f).0 (change_first-All ms id f next h),
          )
    ]

pub finish_progress-IsNumbered :
    (s : ChatSession) (progress : ℤ) (now : Time) (ms : List ChatMessage)
    (found : Option ChatMessage)
    → All (OldOr (next_seq s) s.messages) ms
    → IsNumbered s (finish_progress s (next_seq s) progress now (ms, found)).0
unfolding finish_progress
finish_progress-IsNumbered s progress now ms none h = IsNumbered-same s s (refl, refl)
finish_progress-IsNumbered s progress now ms (some m) h =
    let s' = (finish_progress s (next_seq s) progress now (ms, some m)).0 in
    let seq : s'.event_seq ≡ next_seq s = ground arith in
    let messages : s'.messages ≡ ms = ground arith in
    (inl seq, subst (All (OldOr (next_seq s) s.messages)) (sym messages) h)

module _ (x : TextLibrary) where
  pub append_message-IsNumbered :
      (s : ChatSession) (m : ChatMessage) (now : Time) → IsNumbered s (append_message x s m now).0
  unfolding append_message
  append_message-IsNumbered s m now =
      let (seq, all) = trim_history_locked-All (OldOr (next_seq s) s.messages) _ (
        All-append (OldOr (next_seq s) s.messages) s.messages _ (All-OldOr (next_seq s) s.messages)
          (inr refl, tt)) in
      (inl seq, all)

  pub finish_recall-IsNumbered :
      (s : ChatSession) (now : Time) (ms : List ChatMessage) (result : Recalled x)
      → All (OldOr (next_seq s) s.messages) ms
      → IsNumbered s (finish_recall x s (next_seq s) now (ms, result)).0
  unfolding finish_recall
  finish_recall-IsNumbered s now ms missing h = IsNumbered-same s s (refl, refl)
  finish_recall-IsNumbered s now ms refused h = IsNumbered-same s s (refl, refl)
  finish_recall-IsNumbered s now ms (dropped m) h = (inr refl, h)
  finish_recall-IsNumbered s now ms (marked m) h = (inl refl, h)
