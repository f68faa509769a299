-- ===== src/Session/History.antt =====
-- pkg/chat/v2/session/history.go and replay_seq.go: pages of the message history.
pub mod Paging
use eqrcp.Base.{
  ℕ, ◌-◌, Bool, true, false, not, ◌&&◌, ◌||◌, List, [], ◌∷◌, Option, none, some, length, keep, drop,
  ltb, if◌then◌else◌,
}
use eqrcp.Base.Int.{ℤ, pos, ltb_ℤ, leb_ℤ, pos_part}
use eqrcp.Session.Event.{EventEnvelope}
use eqrcp.Session.Store.{MessageStore}

abbrev pub default_history_page_size : ℤ
default_history_page_size = pos 100

abbrev pub max_history_page_size : ℤ
max_history_page_size = pos 200

unfoldable pub normalize_history_limit : ℤ → ℤ
normalize_history_limit limit =
    if leb_ℤ limit (pos 0)
    then default_history_page_size
    else if ltb_ℤ max_history_page_size limit
    then max_history_page_size
    else limit

abbrev pub has_message : EventEnvelope → Bool
has_message e = elim e.message [ none ↦ false | some _ ↦ true ]

-- What the loop's `continue` lines let through: a message event with `after_seq < seq`, and
-- `seq < before_seq` where there is such a bound.
unfoldable pub in_range : ℤ → ℤ → EventEnvelope → Bool
in_range after_seq before_seq e =
    has_message e
    && (not (leb_ℤ e.seq after_seq) && not (ltb_ℤ (pos 0) before_seq && leb_ℤ before_seq e.seq))

-- The last `limit` of the matched events, and whether there are more.
unfoldable pub newest : List EventEnvelope → ℕ → List EventEnvelope × Bool
newest matched limit =
    if ltb limit (length matched)
    then (drop (length matched - limit) matched, true)
    else (matched, false)

unfoldable pub select_message_history_page :
    MessageStore → (after_seq before_seq limit : ℤ) → List EventEnvelope × Bool
unfolding newest
select_message_history_page s after_seq before_seq limit =
    newest (keep (in_range after_seq before_seq) s.events)
      (pos_part (normalize_history_limit limit))

unfoldable pub resolve_replay_start_seq : (after_seq join_seq current_seq : ℤ) → ℤ
resolve_replay_start_seq after_seq join_seq current_seq =
    if ltb_ℤ (pos 0) after_seq && ltb_ℤ (pos 0) join_seq
    then (if leb_ℤ join_seq after_seq then after_seq else join_seq)
    else if ltb_ℤ (pos 0) after_seq
    then after_seq
    else if ltb_ℤ (pos 0) join_seq
    then join_seq
    else current_seq
