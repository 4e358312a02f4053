-- ===== src/Tests/Handling.antt =====
-- The theorems on the handling of messages, at concrete inputs.
use aqap.Prelude.{
  ℕ, ◌*◌, ◌≤◌, ◌<◌, String, true, none, some, [], ◌∷◌, ◌++◌, ok, err, raised, ◌≡◌, refl, arith,
  get_or, remove, get, All, List, length, map, differ, Dict,
}
use aqap.Message.{Message, value, wire, to_dict, agent_judge}
use aqap.Agent.State.{Agent, AgentState, acked, Event}
use aqap.Agent.Base.{process_one, consume, decrypted, msg_key, goes_on, is_duplicate}
use aqap.Agent.Base.Replies.{process_one_handles, reply_events}
use aqap.Agent.Base.Failure.{count_of, acks}
use aqap.Agent.Base.Redelivery.{deliveries_lem, deliveries, IsPending, dead_letter_log}
use aqap.Validate.{validate_message}
use aqap.Value.{truthy, get_field_or, has_field, get_field}
use aqap.Text.{strip, isdigit, int_of}
use aqap.Agent.Base.Lost.{process_one_loses}
use aqap.Agent.Base.Once.{Arrival, consume_each, consume_twice, noted}
use aqap.Agent.Base.Delivery.{process_one-received, perform_all, replies_to, sealed}
use aqap.InMemory
use aqap.InMemory.Inbox.{received}
use aqap.InMemory.Shutdown.{Op, connects, subscribes, publishes, run_op, run}
use aqap.Agent.Cleanup.{clean}
use aqap.Agent.Cleanup.Bounds.{clean_lem, IsFresh}
use aqap.Tests.{sample_agent, sample_state, sample_message, sample_payload, answering, failing}

abbrev good_agent : Agent ℕ
good_agent = sample_agent answering

abbrev bad_agent : Agent ℕ
bad_agent = sample_agent failing

abbrev topic : String
topic = "aqap:agent:probe"

abbrev handled_state : AgentState ℕ
handled_state = record sample_state { current_message = some sample_message }

process_one_handles_example : process_one good_agent sample_message topic sample_state ≡ (
  ok true,
  record handled_state {
    current_message = none;
    retry_counts = remove (msg_key sample_message) [];
    log =
        ([] ++ reply_events good_agent (λ p. p) (λ p w. refl) sample_message (sample_message ∷ []))
        ++ acks topic "aqap-default" (some "1-0");
  },
)
process_one_handles_example =
    process_one_handles good_agent (λ p. p) (λ p w. refl) sample_message topic sample_state
      handled_state (some (sample_message ∷ [])) refl refl

-- the agent remembers an identifier for 300 units
abbrev hours : ℕ → ℕ
hours k = k * 3600

deliveries_lem_example :
    ((k : ℕ)
      → k < 3
      → IsPending bad_agent topic (some "1-0") sample_message sample_payload hours k sample_state (
          deliveries bad_agent topic
            (some "1-0")
            sample_message
            sample_payload
            hours
            k
            sample_state))
    × ((deliveries bad_agent topic
          (some "1-0")
          sample_message
          sample_payload
          hours
          3
          sample_state).log
        ≡ dead_letter_log bad_agent topic
            (some "1-0")
            sample_message
            sample_payload
            hours
            (raised "handler")
            sample_state)
    × (count_of bad_agent sample_message (
          deliveries bad_agent topic
            (some "1-0")
            sample_message
            sample_payload
            hours
            3
            sample_state)
        ≡ 0)
unfolding get_or get is_duplicate validate_message truthy get_field_or to_dict wire value strip
    isdigit int_of has_field get_field
deliveries_lem_example =
    deliveries_lem bad_agent topic (some "1-0") sample_message sample_payload hours
      (raised "handler") sample_state
      (record {
        foreign = differ "sender-1" "probe-1" refl;
        valid = refl;
        known = refl;
        decrypts = λ w. refl;
      })
      (λ k. omega arith) (λ s. refl)
      (record {
        running = refl;
        is_new = refl;
        count = refl;
        log = refl;
        faults = refl;
        world = refl;
      })
      refl (omega arith)

abbrev last_try_state : AgentState ℕ
last_try_state = record sample_state {
  retry_counts = ("sender-1:trace-1:TASK_DISPATCH", 2) ∷ [];
  faults = true ∷ [];
}

process_one_loses_example :
    ((process_one bad_agent sample_message topic last_try_state).0 ≡ err (raised "transport"))
    × ((process_one bad_agent sample_message topic last_try_state).1.log
        ≡ [] ++ acked topic "1-0" "aqap-default" ∷ [])
unfolding get_or msg_key value
process_one_loses_example =
    process_one_loses bad_agent sample_message (raised "handler") topic "1-0" last_try_state
      (λ s. refl) (omega arith) refl refl (differ "1-0" "" refl)

abbrev another : List (Arrival bad_agent)
another =
    record {
      topic = topic;
      now = 200;
      id = some "1-1";
      message = record sample_message { message_id = "id-2" };
    }
    ∷ []

consume_twice_example :
    (let t =
        consume_each bad_agent another
          (consume bad_agent topic 100 (some "1-0") sample_message sample_state).1 in
      consume bad_agent topic 399 (some "1-2") sample_message t
      ≡ (ok goes_on, noted bad_agent topic (some "1-2") t))
unfolding get is_duplicate
consume_twice_example =
    consume_twice bad_agent topic topic 100 399 (some "1-0") (some "1-2") sample_message
      sample_message another sample_state (λ n. record { at = λ s. (refl, refl) }) refl
      (differ "sender-1" "probe-1" refl) refl (refl, tt) refl (omega arith)

abbrev seen_ids : Dict ℕ
seen_ids = ("a", 5) ∷ ("b", 400) ∷ ("c", 390) ∷ ("d", 380) ∷ []

clean_lem_example :
    (length (clean 450 300 2 seen_ids) ≤ 2) × All (IsFresh 450 300) (clean 450 300 2 seen_ids)
clean_lem_example = clean_lem 450 300 2 seen_ids (
  (differ "a" "b" refl, (differ "a" "c" refl, (differ "a" "d" refl, tt))),
  ((differ "b" "c" refl, (differ "b" "d" refl, tt)), ((differ "c" "d" refl, tt), (tt, tt))),
)

abbrev earlier : List (Op Message)
earlier = connects ∷ subscribes topic "aqap-default" ∷ publishes topic sample_message ∷ []

process_one-received_example :
    let (net, q) = InMemory.subscribe agent_judge "aqap-default" (run InMemory.init earlier) in
    (events : List Event) × ((process_one good_agent sample_message topic sample_state).1.log
      ≡ [] ++ events)
    × (received 1 q (perform_all net events)
        ≡ map
            (sealed good_agent (λ p. p) (λ p w. refl))
            (replies_to agent_judge sample_message (sample_message ∷ [])))
    × ((reply : Message) (u : AgentState ℕ)
        → decrypted good_agent (sealed good_agent (λ p. p) (λ p w. refl) reply) u ≡ (ok reply, u))
unfolding run run_op InMemory.subscribe InMemory.publish InMemory.connect get
process_one-received_example =
    process_one-received good_agent (λ p. p) (λ p w. refl) sample_message topic sample_state
      handled_state (some (sample_message ∷ [])) good_agent earlier agent_judge "aqap-default" 1
      refl refl (λ p v. refl) refl refl (omega arith)
