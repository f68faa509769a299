-- ===== src/Session/History/Paging.antt =====
-- Pages of the history: each continues where the one after it begins, and together they are the
-- whole history.
use eqrcp.Base.{
  ℕ, zero, suc, ◌-◌, ◌≤◌, ◌<◌, ◌≡◌, refl, ap, ◌∙◌, sym, subst, inl, inr, Bool, true, false, ◌&&◌,
  All, List, [], ◌∷◌, ◌++◌, length, take, keep, ltb, arith, Bool-cases, take-append-drop,
  length-drop, length-take, length-append, if◌then◌else◌,
}
use eqrcp.Base.Int.{ℤ, pos, pos_part, ltb_ℤ, ◌≤ℤ◌, ◌<ℤ◌}
use eqrcp.Session.Event.{EventEnvelope}
use eqrcp.Session.Store.{MessageStore}
use eqrcp.Session.Store.Numbering.{Numbered, IsNumbered}
use eqrcp.Session.History.{
  has_message, in_range, newest, normalize_history_limit, select_message_history_page,
}

-- The events come in the order of their numbers, all above `lo`.
abbrev pub Ascending : ℤ → List EventEnvelope → Type 0
Ascending lo [] = Unit
Ascending lo (e ∷ es) = (lo <ℤ e.seq) × Ascending e.seq es

Numbered-Ascending : (k : ℕ) (es : List EventEnvelope) → Numbered (suc k) es → Ascending (pos k) es
Numbered-Ascending k [] h = tt
Numbered-Ascending k (e ∷ es) h =
    (ground arith, subst (λ n. Ascending n es) (sym h.0) (Numbered-Ascending (suc k) es h.1))

Ascending-weaken :
    (lo lo' : ℤ) (es : List EventEnvelope) → lo' ≤ℤ lo → Ascending lo es → Ascending lo' es
Ascending-weaken lo lo' [] le h = tt
Ascending-weaken lo lo' (e ∷ es) le h = (omega arith, h.1)

Ascending-keep :
    (p : EventEnvelope → Bool) (lo : ℤ) (es : List EventEnvelope)
    → Ascending lo es
    → Ascending lo (keep p es)
Ascending-keep p lo [] h = tt
Ascending-keep p lo (e ∷ es) h = elim (Bool-cases (p e)) [
  | inl in_it ↦ rw in_it (h.0, Ascending-keep p e.seq es h.1)
  | inr out ↦
      rw out (Ascending-weaken e.seq lo (keep p es) (omega arith) (Ascending-keep p e.seq es h.1))
]

before : ℤ → EventEnvelope → Bool
before b e = ltb_ℤ e.seq b

keep-before_none :
    (b lo : ℤ) (es : List EventEnvelope) → b ≤ℤ lo → Ascending lo es → keep (before b) es ≡ []
unfolding before
keep-before_none b lo [] le h = refl
keep-before_none b lo (e ∷ es) le h = ground (arith, keep-before_none b e.seq es (omega arith) h.1)

Ascending-lt :
    (lo : ℤ) (ys : List EventEnvelope) (e : EventEnvelope) (rest : List EventEnvelope)
    → Ascending lo (ys ++ e ∷ rest)
    → lo <ℤ e.seq
Ascending-lt lo [] e rest h = h.0
Ascending-lt lo (y ∷ ys) e rest h = omega (arith, h.0, Ascending-lt y.seq ys e rest h.1)

keep-before_split :
    (lo : ℤ) (ys : List EventEnvelope) (e : EventEnvelope) (rest : List EventEnvelope)
    → Ascending lo (ys ++ e ∷ rest)
    → keep (before e.seq) (ys ++ e ∷ rest) ≡ ys
unfolding before
keep-before_split lo [] e rest h =
    ground (arith, keep-before_none e.seq e.seq rest (omega arith) h.1)
keep-before_split lo (y ∷ ys) e rest h =
    ground (arith, Ascending-lt y.seq ys e rest h.1, keep-before_split y.seq ys e rest h.1)

in_range-before :
    (a b c : ℤ) (e : EventEnvelope)
    → pos 0 <ℤ c
    → (pos 0 <ℤ b → c ≤ℤ b)
    → in_range a c e ≡ in_range a b e && before c e
unfolding before in_range
in_range-before a b c e p le = elim (Bool-cases (has_message e)) [
  | inl yes' ↦ rw (yes', in_range) (ground arith)
  | inr no' ↦ rw (no', in_range) refl
]

-- A bound that is no higher than the old one can be applied to what the old one let through.
keep-in_range-before :
    (a b c : ℤ) (es : List EventEnvelope)
    → pos 0 <ℤ c
    → (pos 0 <ℤ b → c ≤ℤ b)
    → keep (in_range a c) es ≡ keep (before c) (keep (in_range a b) es)
keep-in_range-before a b c [] p le = refl
keep-in_range-before a b c (e ∷ es) p le =
    ground (arith, in_range-before a b c e p le, keep-in_range-before a b c es p le)

-- The pages.
newest_lem :
    (matched : List EventEnvelope) (l : ℕ)
    → let (page, more) = newest matched l in
      (older : List EventEnvelope) × (matched ≡ older ++ page)
      × (length page ≡ (if ltb l (length matched) then l else length matched))
      × (more ≡ ltb 0 (length older))
unfolding newest
newest_lem matched l = elim (Bool-cases (ltb l (length matched))) [
  | inl long ↦
      let n = length matched - l in
      rw (long, newest)
        (
          take n matched,
          sym (take-append-drop n matched),
          ground (arith, length-drop n matched),
          ground (arith, length-take n matched),
        )
  | inr short ↦ rw (short, newest) ([], refl, refl, refl)
]

All-keep : (p : EventEnvelope → Bool) (es : List EventEnvelope) → All (λ e. p e ≡ true) (keep p es)
All-keep p [] = tt
All-keep p (e ∷ es) = elim (Bool-cases (p e)) [
  | inl in_it ↦ rw in_it (in_it, All-keep p es)
  | inr out ↦ rw out (All-keep p es)
]

All-at {κ} :
    (P : EventEnvelope → Type κ) (ys : List EventEnvelope) (e : EventEnvelope)
    (rest : List EventEnvelope)
    → All P (ys ++ e ∷ rest)
    → P e
All-at P [] e rest h = h.0
All-at P (y ∷ ys) e rest h = All-at P ys e rest h.1

in_range-le : (a b : ℤ) (e : EventEnvelope) → in_range a b e ≡ true → pos 0 <ℤ b → e.seq ≤ℤ b
unfolding in_range
in_range-le a b e h p = elim (Bool-cases (has_message e)) [
  | inl yes' ↦ ground arith
  | inr no' ↦ ground arith
]

normalize-pos : (limit : ℤ) → 0 < pos_part (normalize_history_limit limit)
unfolding normalize_history_limit
normalize-pos limit = ground arith

no_length : (n l : ℕ) → 0 ≡ (if ltb l n then l else n) → 0 < l → n ≡ 0
no_length n l h p = ground arith

length-zero : (es : List EventEnvelope) → length es ≡ 0 → es ≡ []
length-zero [] h = refl
length-zero (e ∷ es) h = absurd (omega arith)

within_limit : (n m l : ℕ) → n ≡ (if ltb l m then l else m) → n ≤ l
within_limit n m l h = ground arith

-- A page of a numbered store holds the newest messages of the range, at most as many as the limit
-- allows; the messages of the range that are not on it are exactly those before its first event,
-- and `hasMore` tells whether there are any.
pub page_continues :
    (s : MessageStore) (a b limit : ℤ) (e : EventEnvelope) (rest : List EventEnvelope) (more : Bool)
    → IsNumbered s
    → select_message_history_page s a b limit ≡ (e ∷ rest, more)
    → (keep (in_range a b) s.events ≡ keep (in_range a e.seq) s.events ++ e ∷ rest)
      × (length (e ∷ rest) ≤ pos_part (normalize_history_limit limit))
      × (more ≡ ltb 0 (length (keep (in_range a e.seq) s.events)))
unfolding select_message_history_page
page_continues s a b limit e rest more v sel =
    let matched = keep (in_range a b) s.events in
    let l = pos_part (normalize_history_limit limit) in
    let (older, split, len, has_more) = newest_lem matched l in
    let page : (newest matched l).0 ≡ e ∷ rest = ap (λ r. r.0) sel in
    let split' : matched ≡ older ++ e ∷ rest = split ∙ ap (λ p. older ++ p) page in
    let ordered : Ascending (pos 0) (older ++ e ∷ rest) =
      subst (Ascending (pos 0)) split' (
        Ascending-keep (in_range a b) (pos 0) s.events
          (Numbered-Ascending 0 s.events v.numbered)) in
    let positive : pos 0 <ℤ e.seq = Ascending-lt (pos 0) older e rest ordered in
    let inside : in_range a b e ≡ true =
      All-at (λ x. in_range a b x ≡ true) older e rest
        (subst (All (λ x. in_range a b x ≡ true)) split' (All-keep (in_range a b) s.events)) in
    let same : keep (in_range a e.seq) s.events ≡ older =
      keep-in_range-before a b e.seq s.events positive (in_range-le a b e inside)
      ∙ (ap (keep (before e.seq)) split' ∙ keep-before_split (pos 0) older e rest ordered) in
    (
      split' ∙ ap (λ o. o ++ e ∷ rest) (sym same),
      subst (λ p. length p ≤ l) page (within_limit _ (length matched) l len),
      sym (ap (λ r. r.1) sel) ∙ (has_more ∙ ap (λ o. ltb 0 (length o)) (sym same)),
    )

page_empty :
    (s : MessageStore) (a b limit : ℤ) (more : Bool)
    → select_message_history_page s a b limit ≡ ([], more)
    → keep (in_range a b) s.events ≡ []
unfolding select_message_history_page
page_empty s a b limit more sel =
    let matched = keep (in_range a b) s.events in
    let l = pos_part (normalize_history_limit limit) in
    let (older, split, len, _) = newest_lem matched l in
    let page : (newest matched l).0 ≡ [] = ap (λ r. r.0) sel in
    length-zero matched
      (no_length (length matched) l (ap length (sym page) ∙ len) (normalize-pos limit))

-- A client that asks for page after page, each below the first number of the one before, until
-- `hasMore` is false.
abbrev load_page : (ℤ → List EventEnvelope) → List EventEnvelope × Bool → List EventEnvelope
load_page older ([], more) = []
load_page older (e ∷ rest, true) = older e.seq ++ e ∷ rest
load_page older (e ∷ rest, false) = e ∷ rest

unfoldable pub load_all : ℕ → MessageStore → (a b limit : ℤ) → List EventEnvelope
load_all zero s a b limit = []
load_all (suc fuel) s a b limit =
    load_page (λ c. load_all fuel s a c limit) (select_message_history_page s a b limit)

-- With one round more than there are messages in the range, the client gets every message of the
-- range, once, in order.
pub load_all_complete :
    (fuel : ℕ) (s : MessageStore) (a b limit : ℤ)
    → IsNumbered s
    → length (keep (in_range a b) s.events) < fuel
    → load_all fuel s a b limit ≡ keep (in_range a b) s.events
unfolding load_all
load_all_complete zero s a b limit v h = absurd (omega arith)
load_all_complete (suc fuel) s a b limit v h =
    go (λ c. load_all_complete fuel s a c limit v) (select_message_history_page s a b limit) refl
  where
    go :
        ((c : ℤ)
          → length (keep (in_range a c) s.events) < fuel
          → load_all fuel s a c limit ≡ keep (in_range a c) s.events)
        → (r : List EventEnvelope × Bool) → select_message_history_page s a b limit ≡ r
        → load_page (λ c. load_all fuel s a c limit) r ≡ keep (in_range a b) s.events
    go ih ([], more) sel = sym (page_empty s a b limit more sel)
    go ih (e ∷ rest, false) sel =
        let (split, _, m) = page_continues s a b limit e rest false v sel in
        let none_left : keep (in_range a e.seq) s.events ≡ [] =
          length-zero (keep (in_range a e.seq) s.events) (ground (arith, m)) in
        sym (split ∙ ap (λ o. o ++ e ∷ rest) none_left)
    go ih (e ∷ rest, true) sel =
        let (split, _, m) = page_continues s a b limit e rest true v sel in
        let shorter : length (keep (in_range a e.seq) s.events) < fuel =
          omega
            (arith, ap length split, length-append (keep (in_range a e.seq) s.events) (e ∷ rest)) in
        ap (λ o. o ++ e ∷ rest) (ih e.seq shorter) ∙ sym split
