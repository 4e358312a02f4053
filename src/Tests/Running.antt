-- ===== src/Tests/Running.antt =====
-- The theorems on starting and stopping, on configurations and the SDK's validator, at concrete inputs.
use aqap.Prelude.{ℕ, false, [], ◌∷◌, ◌++◌, ok, ◌≡◌, refl}
use aqap.Value.{Fields, end, field, str}
use aqap.Text.{ascii}
use aqap.Message.{Fresh, system_events}
use aqap.Validate.{validate_message}
use aqap.Sdk.Message.{sdk_validate_message}
use aqap.Sdk.Message.Interop.{sdk_validate_message_lem}
use aqap.Agent.State.{Agent, published, connected, disconnected}
use aqap.Agent.Lifecycle.{Live, Hooks, start, stop, register_message, shutdown_message}
use aqap.Agent.Lifecycle.Laws.{stop-start}
use aqap.Tests.{sample_agent, sample_state, answering}

abbrev agent : Agent ℕ
agent = sample_agent answering

abbrev hooks : Hooks ℕ
hooks = record {
  agent_type = "probe";
  topics = "aqap:agent:probe" ∷ [];
  skip_consume = false;
  on_start = λ s. (ok tt, s);
  on_stop = λ s. (ok tt, s);
  drain = λ s. s;
}

abbrev idle_agent : Live ℕ
idle_agent = record { agent = record sample_state { running = false }; tasks = [] }

stop-start_example :
    (f : Fresh) × (g : Fresh) × ((stop agent hooks (start agent hooks idle_agent).1).0 ≡ ok tt)
    × ((stop agent hooks (start agent hooks idle_agent).1).1.tasks ≡ [])
    × ((stop agent hooks (start agent hooks idle_agent).1).1.agent.running ≡ false)
    × ((stop agent hooks (start agent hooks idle_agent).1).1.agent.draining ≡ false)
    × ((stop agent hooks (start agent hooks idle_agent).1).1.agent.log
        ≡ ((([] ++ connected ∷ [])
              ++ published system_events (register_message f "probe-1" "probe") ∷ [])
            ++ published system_events (shutdown_message g "probe-1") ∷ [])
          ++ disconnected ∷ [])
stop-start_example =
    stop-start agent hooks (λ t. refl) (λ t. refl) (λ t. refl) idle_agent refl refl refl

abbrev odd_entries : Fields
odd_entries = field "type" (str "task") (field "version" (str "2.0") end)

sdk_validate_message_lem_example :
    sdk_validate_message ascii odd_entries ≡ validate_message ascii odd_entries
sdk_validate_message_lem_example = sdk_validate_message_lem ascii odd_entries
