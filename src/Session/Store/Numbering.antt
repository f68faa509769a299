-- ===== src/Session/Store/Numbering.antt =====
-- The sequence numbers of the stored events.
use eqrcp.Base.{
  ℕ, zero, suc, ◌+◌, ◌≤◌, ◌≡◌, refl, ap, ◌∙◌, List, [], ◌∷◌, ◌++◌, length, drop, keep,
  length-append, arith,
}
use eqrcp.Base.Int.{pos, ltb_ℤ}
use eqrcp.Base.Int64.{add64, max_int64, add64_pos}
use eqrcp.Base.Clock.{Time}
use eqrcp.Session.Event.{EventEnvelope}
use eqrcp.Session.Store.{MessageStore, new_message_store, add, get_since}

-- The events carry the numbers from `k` on, one by one.
abbrev pub Numbered : ℕ → List EventEnvelope → Type 0
Numbered k [] = Unit
Numbered k (e ∷ es) = (e.seq ≡ pos k) × Numbered (suc k) es

-- The numbers start at 1 and leave no gap, and the next one is the first that is free.
pub record IsNumbered (s : MessageStore) : Type 0 where
  pub numbered : Numbered 1 s.events
  pub next : s.next_seq ≡ pos (suc (length s.events))

pub new_message_store-IsNumbered : IsNumbered new_message_store
unfolding new_message_store
new_message_store-IsNumbered = record { numbered = tt; next = refl }

Numbered-snoc :
    (k : ℕ) (es : List EventEnvelope) (e : EventEnvelope)
    → Numbered k es
    → e.seq ≡ pos (k + length es)
    → Numbered k (es ++ e ∷ [])
Numbered-snoc k [] e h p = (p ∙ ground arith, tt)
Numbered-snoc k (x ∷ es) e h p = (h.0, Numbered-snoc (suc k) es e h.1 (p ∙ ground arith))

-- `Add` keeps the numbers without a gap, as long as they fit in an int64, and gives the event the
-- number after all those before it.
pub add-IsNumbered :
    (s : MessageStore) (event : EventEnvelope) (now : Time)
    → suc (suc (length s.events)) ≤ max_int64
    → IsNumbered s
    → IsNumbered (add s event now).0 × ((add s event now).1.seq ≡ pos (suc (length s.events)))
unfolding add
add-IsNumbered s event now fits v = (
  record {
    numbered = Numbered-snoc 1 s.events _ v.numbered (v.next ∙ ground arith);
    next =
        ap (λ n. add64 n (pos 1)) v.next
        ∙ (add64_pos (suc (length s.events)) 1 (omega arith)
            ∙ ap pos (omega (arith, length-append {0} s.events (_ ∷ []))));
  },
  v.next,
)

keep_above :
    (b k : ℕ) (es : List EventEnvelope)
    → b ≤ k
    → Numbered (suc k) es
    → keep (λ e. ltb_ℤ (pos b) e.seq) es ≡ es
keep_above b k [] le h = refl
keep_above b k (e ∷ es) le h = ground (arith, keep_above b (suc k) es (omega arith) h.1)

drop-Numbered :
    (b k n : ℕ) (es : List EventEnvelope)
    → b ≡ k + n
    → Numbered (suc k) es
    → keep (λ e. ltb_ℤ (pos b) e.seq) es ≡ drop n es
drop-Numbered b k zero es eq h = keep_above b k es (omega arith) h
drop-Numbered b k (suc n) [] eq h = refl
drop-Numbered b k (suc n) (e ∷ es) eq h =
    ground (arith, drop-Numbered b (suc k) n es (omega arith) h.1)

-- `GetSince(n)` gives all stored events but the first `n`.
pub get_since-drop :
    (s : MessageStore) (n : ℕ) → IsNumbered s → get_since s (pos n) ≡ drop n s.events
unfolding get_since
get_since-drop s n v = drop-Numbered n 0 n s.events (omega arith) v.numbered
