-- ===== src/Session/Room/Queue.antt =====
-- pkg/chat/v2/session/client.go: the outgoing queue of a client. `Send`, `Close` and `WritePump` run
-- at the same time, so they are steps of one relation, each an atomic act of one of them.
use eqrcp.Base.{
  ℕ, ◌≤◌, ◌<◌, ◌≡◌, refl, ap, ◌∙◌, sym, subst, String, Bool, true, false, List, [], ◌∷◌, ◌++◌,
  Option, none, some, length, length-append, arith,
}
use mathlib.Core.List.{append_assoc}
use eqrcp.Session.Event.{EventEnvelope}
use eqrcp.Session.Room.Client.{close_reason}

-- `WritePump` waits for an event, writes one, or has returned.
pub data Pump : Type 0 where
  waiting : Pump
  writing : EventEnvelope → Pump
  stopped : Pump

-- The queue, the pump, the reason of the close, if `done` is closed, and whether `conn.Close` was called,
-- which comes after that and lets no later write succeed. `accepted` and `written` are
-- records of the past: the events for which `Send` returned true, and those that were written.
pub record Conn : Type 0 where
  pub accepted : List EventEnvelope
  pub queue : List EventEnvelope
  pub written : List EventEnvelope
  pub pump : Pump
  pub closed : Option String
  pub hung_up : Bool

abbrev pub queue_size : ℕ
queue_size = 128

abbrev pub new_conn : Conn
new_conn = record {
  accepted = [];
  queue = [];
  written = [];
  pump = waiting;
  closed = none;
  hung_up = false;
}

-- `closeOnce` keeps the first reason.
abbrev pub first : Option String → String → Option String
first none reason = some reason
first (some old) reason = some old

unfoldable pub close_with_reason : String → Conn → Conn
close_with_reason reason c = record c { closed = first c.closed reason }

abbrev pub hang_up : Conn → Conn
hang_up c = record c { hung_up = true }

-- A `select` with several cases ready takes any of them. A `Send` whose 200 ms run out found the
-- queue full when they began; the queue may have room again when they end.
pub data Step (c : Conn) : Conn → Type 0 where
  send_accepted :
      (e : EventEnvelope)
      → length c.queue < queue_size
      → Step c (record c { accepted = c.accepted ++ e ∷ []; queue = c.queue ++ e ∷ [] })
  send_closed : (reason : String) → c.closed ≡ some reason → Step c c
  send_timed_out : Step c (close_with_reason close_reason c)
  closes : (reason : String) → Step c (close_with_reason reason c)
  hangs_up : (reason : String) → c.closed ≡ some reason → Step c (hang_up c)
  pump_takes :
      (e : EventEnvelope) (rest : List EventEnvelope)
      → c.pump ≡ waiting
      → c.queue ≡ e ∷ rest
      → Step c (record c { queue = rest; pump = writing e })
  pump_writes :
      (e : EventEnvelope)
      → c.pump ≡ writing e
      → c.hung_up ≡ false
      → Step c (record c { written = c.written ++ e ∷ []; pump = waiting })
  pump_fails :
      (e : EventEnvelope)
      → c.pump ≡ writing e
      → Step c (close_with_reason close_reason (record c { pump = stopped }))
  pump_sees_close :
      (reason : String)
      → c.pump ≡ waiting
      → c.closed ≡ some reason
      → Step c (record c { pump = stopped })
  pump_cancelled : c.pump ≡ waiting → Step c (record c { pump = stopped })

pub data Steps : Conn → Conn → Type 0 where
  done : {c : Conn} → Steps c c
  step : {c e : Conn} (d : Conn) → Step c d → Steps d e → Steps c e

-- What was accepted and is not written yet: the event at hand and the queue, while the pump runs.
abbrev pub IsPending : Pump → List EventEnvelope → List EventEnvelope → Type 0
IsPending waiting rest queue = rest ≡ queue
IsPending (writing e) rest queue = rest ≡ e ∷ queue
IsPending stopped rest queue = Unit

-- The queue is within its size, and what was written is the first part of what was accepted.
abbrev pub IsOrdered : Conn → Type 0
IsOrdered c =
    (length c.queue ≤ queue_size)
    × ((rest : List EventEnvelope) × (c.accepted ≡ c.written ++ rest)
        × IsPending c.pump rest c.queue)

IsPending-snoc :
    (p : Pump) (rest queue : List EventEnvelope) (e : EventEnvelope)
    → IsPending p rest queue
    → IsPending p (rest ++ e ∷ []) (queue ++ e ∷ [])
IsPending-snoc waiting rest queue e h = ap (λ es. es ++ e ∷ []) h
IsPending-snoc (writing x) rest queue e h = ap (λ es. es ++ e ∷ []) h
IsPending-snoc stopped rest queue e h = tt

Step-IsOrdered : (c d : Conn) → Step c d → IsOrdered c → IsOrdered d
unfolding close_with_reason
Step-IsOrdered c _ (send_accepted e room) (fits, (rest, all, pending)) = (
  omega (arith, length-append c.queue (e ∷ [])),
  (
    rest ++ e ∷ [],
    ap (λ es. es ++ e ∷ []) all ∙ append_assoc c.written rest (e ∷ []),
    IsPending-snoc c.pump rest c.queue e pending,
  ),
)
Step-IsOrdered c _ (send_closed _ _) ordered = ordered
Step-IsOrdered c _ send_timed_out ordered = ordered
Step-IsOrdered c _ (closes _) ordered = ordered
Step-IsOrdered c _ (hangs_up _ _) ordered = ordered
Step-IsOrdered c _ (pump_takes e q waits full) (fits, (rest, all, pending)) =
    let held : rest ≡ c.queue = subst (λ p. IsPending p rest c.queue) waits pending in
    (omega (arith, ap length full), (rest, all, held ∙ full))
Step-IsOrdered c _ (pump_writes e w _) (fits, (rest, all, pending)) =
    let held : rest ≡ e ∷ c.queue = subst (λ p. IsPending p rest c.queue) w pending in
    (
      fits,
      (
        c.queue,
        all ∙ (ap (λ es. c.written ++ es) held ∙ sym (append_assoc c.written (e ∷ []) c.queue)),
        refl,
      ),
    )
Step-IsOrdered c _ (pump_fails _ _) (fits, (rest, all, pending)) = (fits, (rest, all, tt))
Step-IsOrdered c _ (pump_sees_close _ _ _) (fits, (rest, all, pending)) = (fits, (rest, all, tt))
Step-IsOrdered c _ (pump_cancelled _) (fits, (rest, all, pending)) = (fits, (rest, all, tt))

-- Whatever the order of the sends, the closes and the acts of the pump, the queue of a client never
-- holds more than 128 events, the events written to the client are the first part of those that
-- `Send` accepted, in order and without a gap, and while the pump runs the events that are accepted
-- but not written are the one at hand and those of the queue.
pub Steps-IsOrdered : (c d : Conn) → Steps c d → IsOrdered c → IsOrdered d
Steps-IsOrdered c _ done ordered = ordered
Steps-IsOrdered c e (step d one more) ordered =
    Steps-IsOrdered d e more (Step-IsOrdered c d one ordered)

-- What stays once the connection was closed.
abbrev Silent : Conn → Conn → Type 0
Silent c d = (d.hung_up ≡ true) × (d.written ≡ c.written)
