-- ===== src/Quota/NetTime.antt =====
-- pkg/server/chat_limiter.go: the cache of the network time and the fetches that refresh it.
use eqrcp.Base.{
  ◌*◌, ◌≡◌, refl, ap, sym, ◌∙◌, ◌⊎◌, inl, inr, Option-cases, Bool-cases, Bool, true, false, not,
  ◌&&◌, Option, none, some, arith, if◌then◌else◌,
}
use mathlib.Core.Bool.{false≢true}
use eqrcp.Base.Int.{ℤ, pos, pos_part, ◌+ℤ◌, ltb_ℤ, ◌≤ℤ◌}
use eqrcp.Base.Clock.{Time, second, is_zero, zero_time, time_sub}

pub record NetTime : Type 0 where
  pub offset : ℤ
  pub is_cached : Bool
  pub last_check : Time
  pub is_checking : Bool
  pub is_first_fetch : Bool

abbrev pub no_net_time : NetTime
no_net_time = record {
  offset = pos 0;
  is_cached = false;
  last_check = zero_time;
  is_checking = false;
  is_first_fetch = true;
}

abbrev pub hour : ℤ
hour = pos (60 * 60 * second)

abbrev pub minute : ℤ
minute = pos (60 * second)

-- `t.Add(d)`, no earlier than the zero time.
abbrev pub time_add : Time → ℤ → Time
time_add t d = pos_part (pos t +ℤ d)

-- `netTimeNow` and `isNetTimeCached`, at a time of the local clock.
unfoldable pub net_time_now : NetTime → Time → Time
net_time_now n now = if n.is_cached then time_add now n.offset else now

unfoldable pub is_net_time_cached : NetTime → Bool
is_net_time_cached n = n.is_cached

-- What the call answers under its first lock: the time and whether the network is reachable, or
-- nothing when it starts a fetch.
unfoldable pub answer_at_once : NetTime → Time → Option (Time × Bool)
answer_at_once n now =
    let age = time_sub now n.last_check in
    if n.is_cached && ltb_ℤ age hour
    then some (time_add now n.offset, true)
    else if n.is_checking
    then some (if n.is_cached then (time_add now n.offset, true) else (now, n.is_first_fetch))
    else if not n.is_cached && (not (is_zero n.last_check) && ltb_ℤ age minute)
    then some (now, false)
    else none

-- The call: the cache after it, the answer, and whether a fetch was started. Between its two locks
-- other calls may run, the fetch among them: `between` is what they do to the cache.
unfoldable pub get_network_time_or_start_fetch :
    (testing : Bool)
    → (between : NetTime → NetTime) → NetTime
    → Time
    → NetTime × ((Time × Bool) × Bool)
get_network_time_or_start_fetch testing between n now =
    let later = between (record n { is_checking = true }) in
    let answer =
      if later.is_cached then (time_add now later.offset, true) else (now, n.is_first_fetch) in
    if testing then (n, ((now, true), false)) else elim (answer_at_once n now) [
      | some early ↦ (n, (early, false))
      | none ↦ (later, (answer, true))
    ]

-- The end of a fetch, with the time that it found, if any; `checked` and `now` are the two readings
-- of the clock. The code then has the limiter reload its file (invalidate_cache in Quota/Load).
unfoldable pub finish_fetch : Option Time → (checked now : Time) → NetTime → NetTime
finish_fetch none checked now n = record n {
  is_cached = false;
  last_check = checked;
  is_checking = false;
  is_first_fetch = false;
}
finish_fetch (some net_time) checked now n = record n {
  offset = time_sub net_time now;
  is_cached = true;
  last_check = checked;
  is_checking = false;
  is_first_fetch = false;
}

-- A fetch may be started.
abbrev pub MayFetch : NetTime → Time → Type 0
MayFetch n now =
    (n.is_checking ≡ false)
    × (n.is_cached ≡ true → hour ≤ℤ time_sub now n.last_check)
    × (n.is_cached ≡ false → (n.last_check ≡ zero_time) ⊎ (minute ≤ℤ time_sub now n.last_check))

pub none_when_due : (n : NetTime) (now : Time) → answer_at_once n now ≡ none → MayFetch n now
unfolding answer_at_once
none_when_due n now e = (ground arith, λ c. ground arith, λ c. ground arith)

early_starts :
    (between : NetTime → NetTime) (n : NetTime) (now : Time) (early : Time × Bool)
    → answer_at_once n now ≡ some early
    → (get_network_time_or_start_fetch false between n now).1 ≡ (early, false)
unfolding get_network_time_or_start_fetch
early_starts between n now early e = rw (e, get_network_time_or_start_fetch) refl

late_starts :
    (between : NetTime → NetTime) (n : NetTime) (now : Time)
    → answer_at_once n now ≡ none
    → (get_network_time_or_start_fetch false between n now).1 ≡ (
      if (between (record n { is_checking = true })).is_cached
          then (time_add now (between (record n { is_checking = true })).offset, true)
          else (now, n.is_first_fetch),
      true,
    )
unfolding get_network_time_or_start_fetch
late_starts between n now e = rw (e, get_network_time_or_start_fetch) refl

-- A call starts a fetch only when none is running, an hour after a fetch that succeeded, and a
-- minute after one that failed, unless there was none before.
pub starts_when_due :
    (testing : Bool) (between : NetTime → NetTime) (n : NetTime) (now : Time)
    → (get_network_time_or_start_fetch testing between n now).1.1 ≡ true
    → MayFetch n now
unfolding get_network_time_or_start_fetch
starts_when_due true between n now e = absurd (false≢true e)
starts_when_due false between n now e = elim (Option-cases (answer_at_once n now)) [
  | inl f ↦ none_when_due n now f
  | inr (early, f) ↦
      absurd (false≢true (sym (ap (λ p. p.1) (early_starts between n now early f)) ∙ e))
]

-- Before any fetch has ended, nothing was checked and nothing is cached.
abbrev pub IsCold : NetTime → Type 0
IsCold n = n.is_first_fetch ≡ true → (n.is_cached ≡ false) × (n.last_check ≡ zero_time)

ends_first :
    (result : Option Time) (checked now : Time) (n : NetTime)
    → (finish_fetch result checked now n).is_first_fetch ≡ false
unfolding finish_fetch
ends_first none checked now n = refl
ends_first (some t) checked now n = refl

offline_at_once :
    (n : NetTime) (now t : Time)
    → IsCold n
    → answer_at_once n now ≡ some (t, false)
    → (n.is_first_fetch ≡ false) × (t ≡ now)
unfolding answer_at_once
offline_at_once n now t cold e = ground (arith, cold)

offline_answer :
    (testing : Bool) (between : NetTime → NetTime) (n : NetTime) (now t : Time)
    → IsCold n
    → (get_network_time_or_start_fetch testing between n now).1.0 ≡ (t, false)
    → (n.is_first_fetch ≡ false) × (t ≡ now)
unfolding get_network_time_or_start_fetch
offline_answer true between n now t cold e = absurd (false≢true (sym (ap (λ p. p.1) e)))
offline_answer false between n now t cold e = elim (Option-cases (answer_at_once n now)) [
  | inl f ↦
      let late = sym (ap (λ p. p.0) (late_starts between n now f)) ∙ e in
      elim (Bool-cases (between (record n { is_checking = true })).is_cached) [
        | inl c ↦ ground arith
        | inr c ↦ ground arith
      ]
  | inr (early, f) ↦
      offline_at_once n now t cold
        (f ∙ ap some (sym (ap (λ p. p.0) (early_starts between n now early f)) ∙ e))
]

-- A call never answers that the network is not reachable before a first fetch has ended, so a cold
-- start is not taken for being offline, and such an answer comes with the time of the local clock.
-- The end of a fetch keeps what this rests on.
pub offline_after_fetch :
    (testing : Bool) (between : NetTime → NetTime) (n : NetTime) (now t : Time)
    → IsCold n
    → ((get_network_time_or_start_fetch testing between n now).1.0 ≡ (t, false)
        → (n.is_first_fetch ≡ false) × (t ≡ now))
      × ((result : Option Time) (checked now' : Time) → IsCold (finish_fetch result checked now' n))
offline_after_fetch testing between n now t cold = (
  offline_answer testing between n now t cold,
  λ result checked now' first. let done = ends_first result checked now' n in cc,
)
