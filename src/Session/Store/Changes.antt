-- ===== src/Session/Store/Changes.antt =====
-- The calls that change a stored message: `Recall`, `MarkDownloaded` and `MarkUploadComplete`.
use eqrcp.Base.{
  ℕ, zero, suc, ◌≡◌, refl, ap, ◌≢◌, ◌⊎◌, inl, inr, String, true, false, List, [], ◌∷◌, Option, none,
  some, get_elem?, arith, Option-cases, Bool-cases, eq_iff,
}
use eqrcp.Session.Event.{Message, EventEnvelope}
use eqrcp.Session.Store.{
  MessageStore, deref, change, is_about, find_address, recall, mark_downloaded,
  mark_upload_complete, may_recall,
}

get_elem?-change_self :
    (heap : List Message) (a : ℕ) (f : Message → Message) (msg : Message)
    → get_elem? heap a ≡ some msg
    → get_elem? (change heap a f) a ≡ some (f msg)
get_elem?-change_self [] a f msg e = cc
get_elem?-change_self (x ∷ xs) zero f msg e = let same : x ≡ msg = cc in ap (λ m. some (f m)) same
get_elem?-change_self (x ∷ xs) (suc a) f msg e = get_elem?-change_self xs a f msg e

get_elem?-change_other :
    (heap : List Message) (a b : ℕ) (f : Message → Message)
    → a ≢ b
    → get_elem? (change heap a f) b ≡ get_elem? heap b
get_elem?-change_other [] a b f ne = refl
get_elem?-change_other (x ∷ xs) zero zero f ne = absurd (ne refl)
get_elem?-change_other (x ∷ xs) zero (suc b) f ne = refl
get_elem?-change_other (x ∷ xs) (suc a) zero f ne = refl
get_elem?-change_other (x ∷ xs) (suc a) (suc b) f ne =
    get_elem?-change_other xs a b f (λ e. ne (ap suc e))

-- The address that is found holds a message with the id.
find_address_lem :
    (heap : List Message) (id : String) (es : List EventEnvelope) (a : ℕ)
    → find_address heap id es ≡ some a
    → (msg : Message) × (get_elem? heap a ≡ some msg) × (msg.id ≡ id)
unfolding find_address
find_address_lem heap id [] a e = cc
find_address_lem heap id (x ∷ es) a e = elim (Bool-cases (is_about heap id x)) [
  | inl here ↦
      let at_a : x.message ≡ some a = ground arith in
      elim (Option-cases (get_elem? heap a)) [
        | inl gone ↦ absurd (ground arith)
        | inr (msg, found) ↦ (msg, found, (eq_iff msg.id id).0 (ground arith))
      ]
  | inr not_here ↦ find_address_lem heap id es a (ground arith)
]

-- What the calls have in common: nothing is found and nothing changes, or the message at one
-- address, which has the id, changes by `f`, and all else stays.
abbrev pub Changed : MessageStore → String → (Message → Message) → MessageStore × Option ℕ → Type 0
Changed s id f (s', none) = s' ≡ s
Changed s id f (s', some a) =
    (msg : Message) × (deref s a ≡ some msg)
    × (msg.id ≡ id)
    × (deref s' a ≡ some (f msg))
    × ((b : ℕ) → a ≢ b → deref s' b ≡ deref s b)
    × (s'.events ≡ s.events)
    × (s'.next_seq ≡ s.next_seq)

change-Changed :
    (s : MessageStore) (id : String) (f : Message → Message) (a : ℕ)
    → find_address s.heap id s.events ≡ some a
    → Changed s id f (record s { heap = change s.heap a f }, some a)
change-Changed s id f a e =
    let (msg, found, same) = find_address_lem s.heap id s.events a e in
    (
      msg,
      found,
      same,
      get_elem?-change_self s.heap a f msg found,
      λ b ne. get_elem?-change_other s.heap a b f ne,
      refl,
      refl,
    )

-- `Recall` marks the message of that id as recalled and changes nothing else; a sender who is named
-- can only recall a message of their own, and a recall that is refused changes nothing at all. A
-- recall of a message that is found is carried out if no sender is named or the message is theirs.
pub recall-Changed :
    (s : MessageStore) (id sender_id : String)
    → Changed s id (λ m. record m { recalled = true }) (recall s id sender_id)
      × ((a : ℕ) (msg : Message)
          → (recall s id sender_id).1 ≡ some a
          → deref s a ≡ some msg
          → (sender_id ≡ "") ⊎ (msg.sender_id ≡ sender_id))
      × ((a : ℕ) (msg : Message)
          → find_address s.heap id s.events ≡ some a
          → deref s a ≡ some msg
          → (sender_id ≡ "") ⊎ (msg.sender_id ≡ sender_id)
          → (recall s id sender_id).1 ≡ some a)
unfolding recall
recall-Changed s id sender_id = elim (Option-cases (find_address s.heap id s.events)) [
  | inl e ↦ rw (e, recall) (refl, λ a msg r. cc, λ a msg f. cc)
  | inr (a, e) ↦
      let (msg, found, _) = find_address_lem s.heap id s.events a e in
      elim (Bool-cases (may_recall sender_id msg)) [
        | inl may ↦
            rw (e, recall)
              (rw (found, recall)
                (rw (may, recall)
                  (
                    change-Changed s id _ a e,
                    λ b m r at_b.
                        ground (arith, eq_iff sender_id "", eq_iff msg.sender_id sender_id),
                    λ b m f at_b own. f,
                  )))
        | inr may_not ↦
            rw (e, recall)
              (rw (found, recall)
                (rw (may_not, recall)
                  (
                    refl,
                    λ b m r. cc,
                    λ b m f at_b own.
                        ground (arith, eq_iff sender_id "", eq_iff msg.sender_id sender_id),
                  )))
      ]
]

-- `MarkDownloaded` and `MarkUploadComplete` change the one flag of the message of that id, for every
-- event that carries the message, and nothing else; they do so whenever there is such a message.
pub mark-Changed :
    (s : MessageStore) (id : String)
    → Changed s id (λ m. record m { downloaded = true }) (mark_downloaded s id)
      × Changed s id (λ m. record m { uploading = false }) (mark_upload_complete s id)
      × ((mark_downloaded s id).1 ≡ find_address s.heap id s.events)
      × ((mark_upload_complete s id).1 ≡ find_address s.heap id s.events)
unfolding mark_downloaded mark_upload_complete
mark-Changed s id = elim (Option-cases (find_address s.heap id s.events)) [
  | inl e ↦ rw (e, mark_downloaded, mark_upload_complete) (refl, refl, refl, refl)
  | inr (a, e) ↦
      rw (e, mark_downloaded, mark_upload_complete)
        (change-Changed s id _ a e, change-Changed s id _ a e, refl, refl)
]
