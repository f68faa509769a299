-- ===== src/Dns/Store/Refines.antt =====
-- The store against a specification: a function that tells of each record, value and time whether
-- the value is live.
use eqrcp.Base.{
  ◌+◌, ◌≤◌, ◌≡◌, refl, ap, ◌∙◌, sym, subst, inl, inr, Bool-cases, Option-cases, String, Bool, true,
  false, ◌&&◌, List, [], ◌∷◌, ltb, arith, ◌=ₛ◌, if◌then◌else◌,
}
use eqrcp.Base.Clock.{Time}
use eqrcp.Base.Assoc.{lookup, lookup-insert, lookup-erase}
use eqrcp.Base.Distinct.{has, AllDistinct}
use eqrcp.Dns.Store.{Challenges, AcmeStore, challenges_or_empty, names_of, get}
use eqrcp.Dns.Store.Live.{expires_after, is_live, IsValid, has-names_of-unexpired, lookup-unexpired}
use eqrcp.Dns.Store.Calls.{
  Call, sets, deletes, deletes_record, gets, clears, step, at, change, concerns, lookup_misses,
  lookup_hits, at-step, change-AllDistinct,
}

abbrev pub Live : Type 0
Live = String → String → Time → Bool

module _ (canonical : String → String) where
  unfoldable pub spec : Call → Time → Live → Live
  spec (sets r v ttl) now f name w t =
      if canonical r =ₛ name && v =ₛ w then ltb t (now + ttl) else f name w t
  spec (deletes r v) now f name w t = if canonical r =ₛ name && v =ₛ w then false else f name w t
  spec (deletes_record r) now f name w t = if canonical r =ₛ name then false else f name w t
  spec (gets r) now f name w t = f name w t
  spec clears now f name w t = false

  -- The store and the specification agree from a time on.
  abbrev pub Matches : Time → AcmeStore → Live → Type 0
  Matches clock s f = (name w : String) (t : Time) → clock ≤ t → is_live s t name w ≡ f name w t

  -- A query is answered by the values that the specification holds for live.
  abbrev pub IsAnswered : Call → Time → AcmeStore → Live → Type 0
  IsAnswered (gets r) now s f =
      (w : String) → has w (get canonical s r now).1 ≡ f (canonical r) w now
  IsAnswered _ now s f = Unit

  abbrev pub AllAnswered : AcmeStore → Live → List (Time × Call) → Type 0
  AllAnswered s f [] = Unit
  AllAnswered s f ((now, call) ∷ calls) =
      IsAnswered call now s f × AllAnswered (step canonical call now s) (spec call now f) calls

  -- The clock does not go back.
  abbrev pub IsInOrder : Time → List (Time × Call) → Type 0
  IsInOrder clock [] = Unit
  IsInOrder clock ((now, call) ∷ calls) = (clock ≤ now) × IsInOrder now calls

  pub step-IsValid :
      (call : Call) (now : Time) (s : AcmeStore) → IsValid s → IsValid (step canonical call now s)
  step-IsValid call now s v name =
      rw (at-step canonical call now s name) (elim (Bool-cases (concerns canonical call name)) [
        | inl here ↦ rw here (change-AllDistinct call now (at s name) (v name))
        | inr other ↦ rw other (v name)
      ])

  -- What a call does to one record, if it is about it, in the terms of the specification.
  change-spec :
      (call : Call) (now t : Time) (f : Live) (m : Challenges) (name w : String)
      → AllDistinct (names_of m)
      → now ≤ t
      → concerns canonical call name ≡ true
      → expires_after t (lookup w m) ≡ f name w t
      → expires_after t (lookup w (change call now m)) ≡ spec call now f name w t
  unfolding spec
  change-spec (sets r v ttl) now t f m name w h le here same =
      ground (arith, lookup-insert v w (now + ttl) m)
  change-spec (deletes r v) now t f m name w h le here same = ground (arith, lookup-erase v w m)
  change-spec (deletes_record r) now t f m name w h le here same = unfold lookup in rw here refl
  change-spec (gets r) now t f m name w h le here same = lookup-unexpired w now t m h le ∙ same
  change-spec clears now t f m name w h le here same = unfold lookup in refl

  spec_elsewhere :
      (call : Call) (now t : Time) (f : Live) (name w : String)
      → concerns canonical call name ≡ false
      → spec call now f name w t ≡ f name w t
  unfolding spec
  spec_elsewhere (sets r v ttl) now t f name w e = rw e refl
  spec_elsewhere (deletes r v) now t f name w e = rw e refl
  spec_elsewhere (deletes_record r) now t f name w e = rw e refl
  spec_elsewhere (gets r) now t f name w e = refl
  spec_elsewhere clears now t f name w e = cc

  step-Matches :
      (call : Call) (clock now : Time) (s : AcmeStore) (f : Live)
      → IsValid s
      → clock ≤ now
      → Matches clock s f
      → Matches now (step canonical call now s) (spec call now f)
  unfolding is_live
  step-Matches call clock now s f valid le same name w t later =
      rw (at-step canonical call now s name) (elim (Bool-cases (concerns canonical call name)) [
        | inl here ↦ rw here (
            change-spec call now t f (at s name) name w (valid name) later here
              (same name w t (omega arith)))
        | inr other ↦
            rw other (same name w t (omega arith) ∙ sym (spec_elsewhere call now t f name w other))
      ])

  pub get-IsAnswered :
      (call : Call) (clock now : Time) (s : AcmeStore) (f : Live)
      → IsValid s
      → clock ≤ now
      → Matches clock s f
      → IsAnswered call now s f
  unfolding is_live
  get-IsAnswered (sets r v ttl) clock now s f valid le same = tt
  get-IsAnswered (deletes r v) clock now s f valid le same = tt
  get-IsAnswered (deletes_record r) clock now s f valid le same = tt
  get-IsAnswered clears clock now s f valid le same = tt
  get-IsAnswered (gets r) clock now s f valid le same = λ w.
      elim (Option-cases (lookup (canonical r) s.entries)) [
        | inl e ↦ rw (lookup_misses canonical s r now e) (
            sym (
              ap (λ o. expires_after now (lookup w (challenges_or_empty o))) e
              ∙ unfold lookup in refl)
            ∙ same (canonical r) w now le)
        | inr (m, e) ↦
            let distinct : AllDistinct (names_of m) =
              subst (λ o. AllDistinct (names_of (challenges_or_empty o))) e (valid (canonical r)) in
            rw (lookup_hits canonical s r now m e) (
              has-names_of-unexpired w now m distinct
              ∙ (sym (ap (λ o. expires_after now (lookup w (challenges_or_empty o))) e)
                  ∙ same (canonical r) w now le))
      ]

  -- The store does what the specification says: for calls in any order, at times that do not go
  -- back, every query is answered by exactly the values of the record that were set last with an
  -- expiry that is later than the query, and not deleted since.
  pub store_refines :
      (s : AcmeStore) (f : Live) (clock : Time) (calls : List (Time × Call))
      → IsValid s
      → Matches clock s f
      → IsInOrder clock calls
      → AllAnswered s f calls
  store_refines s f clock [] valid same order = tt
  store_refines s f clock ((now, call) ∷ calls) valid same (le, order) = (
    get-IsAnswered call clock now s f valid le same,
    store_refines (step canonical call now s) (spec call now f) now calls
        (step-IsValid call now s valid) (step-Matches call clock now s f valid le same) order,
  )
