-- ===== src/Tests/Workflow.antt =====
-- The theorems on the supervisor, the scheduler and the working agents, at concrete inputs.
use mathlib.Core.List.{map}
use aqap.Prelude.{
  ℕ, ◌+◌, String, true, false, get, Result, List, [], ◌∷◌, ◌++◌, ok, err, raised, ◌≡◌, refl, arith,
  type_error,
}
use aqap.Value.{Value, Float, Fields, bool, float, truthy, obj, end, field, get_field_or}
use aqap.Text.{ascii, codes, strip}
use aqap.Text.Numbers.{int_text}
use aqap.Message.{MessageType, Message}
use aqap.Plugin.Registry.{Plugin, execute_all, get_for_topic, Registry}
use aqap.Agent.State.{Agent}
use aqap.Agent.Supervisor.{Member, Supervisor, monitor_round, all_ids}
use aqap.Agent.Supervisor.Monitor.{monitor_round_lem, restarted, members, silent_ids}
use aqap.Agent.Scheduler.{Entry, next_seconds, round, ends_with, drop_last}
use aqap.Agent.Scheduler.Rounds.{planned, worlds, round_publishes, settled}
use aqap.Agent.Workers.{Numbers}
use aqap.Agent.Workers.Judge
use aqap.Agent.Workers.Judge.{tally}
use aqap.Agent.Workers.Pipeline.{Team, Passage, task_passes}
use aqap.Agent.Workers.Outcomes.{outcomes}
use aqap.Agent.Workers.Judge.Laws.{all_approve}
use aqap.Tests.{sample_agent, sample_state, sample_message, sample_payload, answering}

abbrev counting_member : Member ℕ
counting_member = record { start = λ w. (ok tt, w + 1); stop = λ w. (err (raised "stop"), w + 10) }

abbrev two_members : Supervisor ℕ
two_members = record {
  agents = ("probe-1", counting_member) ∷ ("judge-1", counting_member) ∷ [];
  heartbeat_timeout = 90;
  last_heartbeat = ("probe-1", 5) ∷ ("stranger", 6) ∷ [];
  running = true;
  set_order = λ ks. ks;
}

monitor_round_lem_example :
    monitor_round 100 two_members 0
    ≡ restarted
        (members 100 two_members
          (silent_ids 100 two_members (two_members.set_order (all_ids two_members))))
        0
monitor_round_lem_example = monitor_round_lem 100 two_members 0

abbrev entry_of : String → String → ℕ → Entry
entry_of cron topic last_run = record {
  expr = codes cron;
  topic = topic;
  payload = sample_payload;
  last_run = last_run;
}

abbrev two_entries : List Entry
two_entries =
    entry_of "*/5m" "aqap:agent:probe" 1000 ∷ entry_of "@hourly" "aqap:broadcast" 1000 ∷ []

abbrev scheduler : Agent ℕ
scheduler = sample_agent answering

round_publishes_example : round scheduler 1300 0 two_entries sample_state ≡ (
  ok tt,
  map (settled ascii 1300) two_entries,
  record sample_state {
    world = worlds scheduler 1300 two_entries 0;
    log = [] ++ planned scheduler 1300 0 two_entries 0;
  },
)
unfolding next_seconds int_text ends_with drop_last strip
round_publishes_example =
    round_publishes scheduler 1300 0 two_entries sample_state
      ((300, refl, omega arith), ((3600, refl, omega arith), tt)) refl

abbrev plugin_of : String → Result Fields → Plugin ℕ
plugin_of name outcome = record {
  name = name;
  version = "1.0.0";
  initialize = λ config w. (ok tt, w);
  execute = λ context w. (outcome, w + 1);
  cleanup = λ w. (ok tt, w);
}

-- one plugin objects, another one raises
abbrev some_plugins : Registry ℕ
some_plugins = record {
  plugins =
      ("strict", plugin_of "strict" (ok (field "passed" (bool false) end)))
      ∷ ("broken", plugin_of "broken" (err type_error))
      ∷ [];
  topic_mapping = ("judge", "strict" ∷ "broken" ∷ []) ∷ ("probe", "strict" ∷ []) ∷ [];
}

abbrev clock : ℕ → Float × ℕ
clock w = (record { bits = 0 }, w + 1)

abbrev some_numbers : Numbers
some_numbers = record {
  mean = λ vs. ok (float record { bits = 0 });
  is_excellent = λ v. ok true;
  shown = λ v. "0.95";
}

abbrev judge_request : Message
judge_request = record sample_message {
  type = MessageType.judge_request;
  payload = field "task" (obj sample_payload) end;
}

-- the verdict of these plugins
judged_against :
    all_approve (outcomes scheduler some_plugins clock "judge" judge_request.payload sample_state).0
    ≡ false
unfolding execute_all get_for_topic get get_field_or truthy
judged_against = refl

abbrev team : Team ℕ
team = record {
  probe = scheduler;
  judge = record scheduler { agent_id = "judge-1" };
  reporter = record scheduler { agent_id = "reporter-1" };
  judge_target = "judge-1";
  reporter_target = "reporter-1";
}

task_passes_example :
    Passage some_plugins clock some_numbers team sample_message sample_state sample_state
      sample_state
task_passes_example =
    task_passes some_plugins clock some_numbers team sample_message sample_state sample_state
      sample_state refl refl refl
