-- ===== src/Agent/Scheduler/Rounds.antt =====
-- What one pass over the schedule publishes, and when an entry is due again.
use aqap.Prelude.{
  ℕ, suc, ◌+◌, ◌<◌, Bool, false, List, [], ◌∷◌, ◌++◌, map, leb, if◌then◌else◌, Result, ok, err, ◌≡◌,
  refl, arith, ap, sym, All, Bool-cases, inl, inr,
}
use mathlib.Core.List.{append_assoc, append-nil}
use aqap.Value.{ℤ, pos, negsuc, str, put_field, has_field}
use aqap.Text.{◌+s◌}
use aqap.Text.Numbers.{decimal_text}
use aqap.Text.{Python}
use aqap.Message.{Message, MessageType, new_message, task_dispatch}
use aqap.Agent.State.{Agent, AgentState, Event, published}
use aqap.Agent.Base.Failure.{publish_calm}
use aqap.Agent.Scheduler.{Entry, next_seconds, is_due, scheduled_task, fire, round}

-- an expression that is read as a positive interval
abbrev IsReadable : Python → Entry → Type 0
IsReadable py e = (n : ℕ) × (next_seconds py e.expr ≡ ok (pos n)) × (0 < n)

abbrev seconds : Result ℤ → ℕ
seconds (ok (pos n)) = n
seconds (ok (negsuc n)) = 0
seconds (err x) = 0

module _ (py : Python) (now : ℕ) where
  -- the last run is an interval ago, or more
  abbrev ripe : Entry → Bool
  ripe e = leb (seconds (next_seconds py e.expr) + e.last_run) now

  abbrev pub settled : Entry → Entry
  settled e = if ripe e then record e { last_run = now } else e

  is_due_lem : (e : Entry) → IsReadable py e → is_due py now e ≡ ok (ripe e)
  unfolding is_due
  is_due_lem e (n, reads, positive) = rw reads refl

is_due_early :
    (py : Python) (later : ℕ) (e : Entry) (n : ℕ)
    → next_seconds py e.expr ≡ ok (pos n)
    → later < e.last_run + n
    → is_due py later e ≡ ok false
unfolding is_due
is_due_early py later e n reads early =
    let held : leb (n + e.last_run) later ≡ false = ground arith in rw (reads, held) refl

module _ {W : Type 0} (a : Agent W) (now : ℕ) where
  -- the task of entry `i`: a dispatch by the scheduler, with the entry's payload, the time at which it
  -- was made, and a number of its own where the payload names no task; its trace names the scheduler,
  -- the entry and the time of the pass
  abbrev planned_task : ℕ → Entry → W → Message
  planned_task i e w =
      let (f, w') = a.draw w in
      let (g, w'') = a.draw w' in
      record {
        type = MessageType.task_dispatch;
        source = a.agent_id;
        payload = put_field "scheduled_at" (str f.timestamp) (
            if has_field "task_id" e.payload
            then e.payload
            else put_field "task_id" (str ("sched-" +s decimal_text i +s "-" +s decimal_text now))
                e.payload);
        message_id = g.message_id;
        target = "";
        topic = "aqap:agent:probe";
        trace_id = "sched-" +s a.agent_id +s "-" +s decimal_text i +s "-" +s decimal_text now;
        correlation_id = "";
        version = "1.0";
        timestamp = g.timestamp;
      }

  abbrev pub world_after : Entry → W → W
  world_after e w = if ripe a.py now e then (a.draw (a.draw w).1).1 else w

  -- the publications of a pass from entry `i` on, and the world after it
  abbrev pub planned : ℕ → List Entry → W → List Event
  planned i [] w = []
  planned i (e ∷ es) w =
      let rest = planned (suc i) es (world_after e w) in
      if ripe a.py now e then published e.topic (planned_task i e w) ∷ rest else rest

  abbrev pub worlds : List Entry → W → W
  worlds [] w = w
  worlds (e ∷ es) w = worlds es (world_after e w)

  abbrev after : ℕ → Entry → AgentState W → AgentState W
  after i e s = record s {
    world = (a.draw (a.draw s.world).1).1;
    log = s.log ++ published e.topic (planned_task i e s.world) ∷ [];
  }

  fire_calm :
      (i : ℕ) (e : Entry) (s : AgentState W)
      → s.faults ≡ []
      → fire a now i e s ≡ (ok tt, after i e s)
  unfolding fire scheduled_task task_dispatch new_message
  fire_calm i e s calm =
      publish_calm a e.topic (planned_task i e s.world)
        (record s { world = (a.draw (a.draw s.world).1).1 }) calm

  -- Where every expression reads as a positive interval and the transport raises nothing, a pass
  -- comes to its end: for each entry whose last run is its interval ago or more, in the order of the
  -- entries, it publishes to the entry's topic a dispatch by the scheduler, with the entry's payload and
  -- the time, a task's name where the payload has none, and a trace of its own. It publishes nothing
  -- else, and sets the last run of just these entries to the time of the pass.
  pub round_publishes :
      (i : ℕ) (es : List Entry) (s : AgentState W)
      → All (IsReadable a.py) es
      → s.faults ≡ []
      → round a now i es s ≡ (
        ok tt,
        map (settled a.py now) es,
        record s { world = worlds es s.world; log = s.log ++ planned i es s.world },
      )
  unfolding round
  round_publishes i [] s readable calm =
      ap {B = Result (Unit {0}) × List Entry × AgentState W}
        (λ l. (ok tt, [], record s { log = l })) (sym (append-nil s.log))
  round_publishes i (e ∷ es) s (reads, readable) calm = elim (Bool-cases (ripe a.py now e)) [
    | inr early ↦
        rw (is_due_lem a.py now e reads, round, early, round_publishes (suc i) es s readable calm)
          refl
    | inl late ↦
        let t = after i e s in
        rw
          (
            is_due_lem a.py now e reads,
            round,
            late,
            fire_calm i e s calm,
            ap (λ r. r.1) (fire_calm i e s calm),
            round_publishes (suc i) es t readable calm,
          )
          (ap {B = Result (Unit {0}) × List Entry × AgentState W}
            (λ l. (
              ok tt,
              record e { last_run = now } ∷ map (settled a.py now) es,
              record s { world = worlds es t.world; log = l },
            ))
            (append_assoc s.log (published e.topic (planned_task i e s.world) ∷ [])
              (planned (suc i) es t.world)))
  ]

  -- An entry with a positive interval that a pass has settled is not due again before its interval
  -- has gone by since its last run.
  settled-is_due :
      (e : Entry) (later : ℕ)
      → IsReadable a.py e
      → later < (settled a.py now e).last_run + seconds (next_seconds a.py e.expr)
      → is_due a.py later (settled a.py now e) ≡ ok false
  settled-is_due e later (n, reads, positive) early = elim (Bool-cases (ripe a.py now e)) [
    | inl late ↦
        rw late (
          is_due_early a.py later (record e { last_run = now }) n reads (rw (late, reads) at early))
    | inr held ↦ rw held (is_due_early a.py later e n reads (rw (held, reads) at early))
  ]
