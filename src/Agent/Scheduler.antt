-- ===== src/Agent/Scheduler.antt =====
-- aqap/agent/scheduler.py. The clock is read in whole seconds, and the three lists of the agent are
-- one list of entries.
pub mod Intervals
pub mod Rounds
use aqap.Prelude.{
  ℕ, zero, suc, ◌+◌, ◌-◌, ◌*◌, String, Bool, true, false, ◌&&◌, List, [], ◌∷◌, ◌++◌, drop, length,
  nat_eq, leb, if◌then◌else◌, Result, ok, err, bind, Exc, Exec, Option, none, some,
}
use aqap.Value.{Value, str, Fields, has_field, put_field, ℤ, pos, negsuc}
use aqap.Text.{Python, codes, same_codes, isdigit, strip, ◌+s◌}
use aqap.Text.Numbers.{int_text, decimal_text}
use aqap.Message.{Message, Fresh, task_dispatch}
use aqap.Agent.State.{Agent, AgentState, publish}

-- s[:-1]
unfoldable pub drop_last : List ℕ → List ℕ
drop_last [] = []
drop_last (c ∷ []) = []
drop_last (c ∷ d ∷ s) = c ∷ drop_last (d ∷ s)

-- s.endswith(c), for one character
unfoldable pub ends_with : ℕ → List ℕ → Bool
ends_with c [] = false
ends_with c (d ∷ []) = nat_eq d c
ends_with c (d ∷ e ∷ s) = ends_with c (e ∷ s)

-- s.startswith("*/")
abbrev starts_every : List ℕ → Bool
starts_every [] = false
starts_every (c ∷ []) = false
starts_every (c ∷ d ∷ s) = nat_eq c b'*' && nat_eq d b'/'

-- n * k
abbrev pub times : ℤ → ℕ → ℤ
times (pos n) k = pos (n * k)
times (negsuc n) zero = pos 0
times (negsuc n) (suc k) = negsuc (suc n * suc k - 1)

-- CronSchedule.next_seconds, on the stripped expression
unfoldable pub next_seconds : Python → List ℕ → Result ℤ
unfolding ends_with drop_last int_text
next_seconds py expr =
    if starts_every expr && ends_with b's' expr
    then int_text py (drop_last (drop 2 expr))
    else if starts_every expr && ends_with b'm' expr
    then bind (int_text py (drop_last (drop 2 expr))) (λ n. ok (times n 60))
    else if starts_every expr && ends_with b'h' expr
    then bind (int_text py (drop_last (drop 2 expr))) (λ n. ok (times n 3600))
    else if starts_every expr
    then bind (int_text py (drop 2 expr)) (λ n. ok (times n 60))
    else if same_codes expr (codes "@hourly")
    then ok (pos 3600)
    else if same_codes expr (codes "@daily")
    then ok (pos 86400)
    else if isdigit py expr
    then int_text py expr
    else ok (pos 60)

pub record Entry : Type 0 where
  pub expr : List ℕ
  pub topic : String
  pub payload : Fields
  pub last_run : ℕ

-- CronSchedule(cron), with its topic and payload; `on_start` sets the last run to 0.0
unfoldable new_entry : Python → String → String → Fields → Entry
unfolding strip
new_entry py cron topic payload = record {
  expr = strip py (codes cron);
  topic = topic;
  payload = payload;
  last_run = 0;
}

-- now - last_run >= interval
abbrev has_passed : ℕ → ℕ → ℤ → Bool
has_passed now last_run (pos n) = leb (n + last_run) now
has_passed now last_run (negsuc n) = leb last_run (now + suc n)

unfoldable pub is_due : Python → ℕ → Entry → Result Bool
unfolding next_seconds
is_due py now e =
    bind (next_seconds py e.expr) (λ interval. ok (has_passed now e.last_run interval))

-- the payload of the task of entry `i`
unfoldable scheduled_payload : ℕ → ℕ → String → Fields → Fields
unfolding decimal_text
scheduled_payload now i timestamp payload = put_field "scheduled_at" (str timestamp) (
    if has_field "task_id" payload
    then payload
    else put_field "task_id" (str ("sched-" +s decimal_text i +s "-" +s decimal_text now)) payload)

unfoldable pub scheduled_task : Fresh → Fresh → String → ℕ → ℕ → Fields → Message
unfolding task_dispatch scheduled_payload
scheduled_task f g agent_id now i payload =
    record (task_dispatch g agent_id (scheduled_payload now i f.timestamp payload)) {
      trace_id = "sched-" +s agent_id +s "-" +s decimal_text i +s "-" +s decimal_text now;
    }

module _ {W : Type 0} (a : Agent W) where
  -- the task of an entry that is due
  unfoldable pub fire : ℕ → ℕ → Entry → Exec (AgentState W) (Unit {0})
  unfolding scheduled_task publish
  fire now i e s =
      let (f, w) = a.draw s.world in
      let (g, w') = a.draw w in
      publish e.topic (scheduled_task f g a.agent_id now i e.payload) (record s { world = w' })

  -- One pass of `_schedule_loop` over the entries. An exception ends the loop for good.
  unfoldable pub round :
      ℕ → ℕ → List Entry → AgentState W → Result (Unit {0}) × List Entry × AgentState W
  unfolding is_due fire
  round now i [] s = (ok tt, [], s)
  round now i (e ∷ es) s = elim (is_due a.py now e) [
    | err x ↦ (err x, e ∷ es, s)
    | ok due ↦ elim due [
      | false ↦ let (r, es', s') = round now (suc i) es s in (r, e ∷ es', s')
      | true ↦
          let (r, s') = fire now i e s in
          elim r [
            | err x ↦ (err x, e ∷ es, s')
            | ok _ ↦
                let (r', es', s'') = round now (suc i) es s' in
                (r', record e { last_run = now } ∷ es', s'')
          ]
    ]
  ]
