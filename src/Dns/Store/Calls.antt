-- ===== src/Dns/Store/Calls.antt =====
-- The calls on the store, and what each does to the challenges of one record.
use eqrcp.Base.{
  ◌+◌, ◌≡◌, refl, ap, ◌∙◌, sym, inl, inr, Bool-cases, Option-cases, String, Bool, true, List, [],
  none, some, arith, eq_iff, ◌=ₛ◌, if◌then◌else◌,
}
use eqrcp.Base.Clock.{Time}
use eqrcp.Base.Assoc.{lookup, insert, erase, lookup-insert, lookup-erase}
use eqrcp.Base.Distinct.{AllDistinct}
use eqrcp.Dns.Store.{
  Challenges, AcmeStore, challenges_or_empty, put_back, unexpired, names_of, set, delete,
  delete_record, get, clear,
}
use eqrcp.Dns.Store.Live.{
  erase-AllDistinct, insert-AllDistinct, unexpired-AllDistinct, lookup-put_back,
}

pub data Call : Type 0 where
  sets : (record_name value : String) (ttl : Time) → Call
  deletes : (record_name value : String) → Call
  deletes_record : (record_name : String) → Call
  gets : (record_name : String) → Call
  clears : Call

abbrev pub at : AcmeStore → String → Challenges
at s name = challenges_or_empty (lookup name s.entries)

-- What a call does to the challenges of one record.
abbrev pub change : Call → Time → Challenges → Challenges
change (sets r v ttl) now m = insert v (now + ttl) m
change (deletes r v) now m = erase v m
change (deletes_record r) now m = []
change (gets r) now m = unexpired now m
change clears now m = []

pub change-AllDistinct :
    (call : Call) (now : Time) (m : Challenges)
    → AllDistinct (names_of m)
    → AllDistinct (names_of (change call now m))
change-AllDistinct (sets r v ttl) now m h = insert-AllDistinct v (now + ttl) m h
change-AllDistinct (deletes r v) now m h = erase-AllDistinct v m h
change-AllDistinct (deletes_record r) now m h = tt
change-AllDistinct (gets r) now m h = unexpired-AllDistinct now m h
change-AllDistinct clears now m h = tt

at_erase :
    (r name : String) (s : List (String × Challenges))
    → challenges_or_empty (lookup name (erase r s))
      ≡ (if r =ₛ name then [] else challenges_or_empty (lookup name s))
at_erase r name s = ground (arith, lookup-erase r name s)

-- A record is changed where it stands.
modify :
    (f : Challenges → Challenges) (r name : String) (s t : List (String × Challenges))
    → challenges_or_empty (lookup name t) ≡ (
        if r =ₛ name
        then f (challenges_or_empty (lookup r s))
        else challenges_or_empty (lookup name s))
    → challenges_or_empty (lookup name t) ≡ (
        if r =ₛ name
        then f (challenges_or_empty (lookup name s))
        else challenges_or_empty (lookup name s))
modify f r name s t h = elim (Bool-cases (r =ₛ name)) [
  | inl same ↦
      let named : r ≡ name = ground (arith, eq_iff r name) in
      h
      ∙ ap
          (λ k.
            if r =ₛ name
            then f (challenges_or_empty (lookup k s))
            else challenges_or_empty (lookup name s))
          named
  | inr other ↦ h ∙ rw other refl
]

absent :
    (f : Challenges → Challenges) (r name : String) (s : List (String × Challenges))
    → f [] ≡ []
    → lookup r s ≡ none
    → challenges_or_empty (lookup name s) ≡ (
        if r =ₛ name
        then f (challenges_or_empty (lookup name s))
        else challenges_or_empty (lookup name s))
absent f r name s none_yet e = elim (Bool-cases (r =ₛ name)) [
  | inl same ↦
      let named : r ≡ name = ground (arith, eq_iff r name) in
      let no_entry : challenges_or_empty (lookup name s) ≡ [] =
        ap (λ k. challenges_or_empty (lookup k s)) (sym named) ∙ ap challenges_or_empty e in
      rw same (no_entry ∙ sym (ap f no_entry ∙ none_yet))
  | inr other ↦ rw other refl
]

present :
    (f : Challenges → Challenges) (r name : String) (s : List (String × Challenges))
    (m : Challenges)
    → lookup r s ≡ some m
    → challenges_or_empty (lookup name (put_back r (f m) s)) ≡ (
        if r =ₛ name
        then f (challenges_or_empty (lookup name s))
        else challenges_or_empty (lookup name s))
present f r name s m e = modify f r name s (put_back r (f m) s) (
    lookup-put_back r name (f m) s
    ∙ ap (λ o. if r =ₛ name then f (challenges_or_empty o) else challenges_or_empty (lookup name s))
        (sym e))

module _ (canonical : String → String) where
  unfoldable pub step : Call → Time → AcmeStore → AcmeStore
  step (sets r v ttl) now s = set canonical s r v ttl now
  step (deletes r v) now s = delete canonical s r v
  step (deletes_record r) now s = delete_record canonical s r
  step (gets r) now s = (get canonical s r now).0
  step clears now s = clear s

  -- Whether a call is about a record.
  abbrev pub concerns : Call → String → Bool
  concerns (sets r v ttl) name = canonical r =ₛ name
  concerns (deletes r v) name = canonical r =ₛ name
  concerns (deletes_record r) name = canonical r =ₛ name
  concerns (gets r) name = canonical r =ₛ name
  concerns clears name = true

  pub lookup_misses :
      (s : AcmeStore) (r : String) (now : Time)
      → lookup (canonical r) s.entries ≡ none
      → get canonical s r now ≡ (s, [])
  unfolding get
  lookup_misses s r now e = rw (e, get) refl

  pub lookup_hits :
      (s : AcmeStore) (r : String) (now : Time) (m : Challenges)
      → lookup (canonical r) s.entries ≡ some m
      → get canonical s r now ≡ (
        record { entries = put_back (canonical r) (unexpired now m) s.entries },
        names_of (unexpired now m),
      )
  unfolding get
  lookup_hits s r now m e = rw (e, get) refl

  pub at-step :
      (call : Call) (now : Time) (s : AcmeStore) (name : String)
      → at (step call now s) name
        ≡ (if concerns call name then change call now (at s name) else at s name)
  unfolding step set delete delete_record clear
  at-step (sets r v ttl) now s name =
      let m = challenges_or_empty (lookup (canonical r) s.entries) in
      modify (insert v (now + ttl)) (canonical r) name s.entries _ (
        ap challenges_or_empty (lookup-insert (canonical r) name (insert v (now + ttl) m) s.entries)
        ∙ ground arith)
  at-step (deletes r v) now s name = elim (Option-cases (lookup (canonical r) s.entries)) [
    | inl e ↦
        rw (e, delete) (absent (erase v) (canonical r) name s.entries (unfold erase in refl) e)
    | inr (m, e) ↦ rw (e, delete) (present (erase v) (canonical r) name s.entries m e)
  ]
  at-step (deletes_record r) now s name = at_erase (canonical r) name s.entries
  at-step (gets r) now s name = elim (Option-cases (lookup (canonical r) s.entries)) [
    | inl e ↦
        ap (λ p. at p.0 name) (lookup_misses s r now e)
        ∙ absent (unexpired now) (canonical r) name s.entries (unfold unexpired in refl) e
    | inr (m, e) ↦
        ap (λ p. at p.0 name) (lookup_hits s r now m e)
        ∙ present (unexpired now) (canonical r) name s.entries m e
  ]
  at-step clears now s name = unfold lookup in refl
