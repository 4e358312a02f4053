-- ===== src/Lib.antt =====
-- AQAP: agents that check the quality of tasks and talk by messages.
--
-- The program is a set of agents over one transport. A message envelope (aqap/core/message.py) is
-- decoded, checked by a validator (aqap/core/validate.py) and handled by an agent
-- (aqap/agent/base.py), which answers, retries, or publishes a dead letter (aqap/core/dlq.py). A probe
-- runs plugins (aqap/plugin) on a task and asks a judge for a verdict, the judge asks a reporter for a
-- report; a scheduler dispatches tasks, a supervisor restarts silent agents, and a consumer keeps the
-- dead letters and replays them. The engine (aqap/core/engine.py) builds the transport, the plugins and
-- the agents from a configuration and starts them. The SDK (sdk/aqap_sdk) has its own message class, a
-- consumer and a producer of Redis streams, and a bridge that turns HTTP requests into messages. The
-- command line (aqap/cli.py) and the admin pages (aqap/admin.py) look into a running engine.
--
-- The files:
--   Prelude       names of the libraries, tests on numbers, lists, `dict`, exceptions, methods
--   Value         JSON values as Python holds them (mutual data types Value, Items, Fields)
--   Text          the `str` methods in use, over code points; `int` and `str` of numbers
--   Message       aqap/core/message.py: Types (MessageType, Topic, ErrorCode), Wire (Message, to_dict,
--                 from_dict), Build (reply, task_dispatch and the other constructor functions)
--   Validate      aqap/core/validate.py: validate_message; Types and Laws hold its theorems
--   Sdk/Message   sdk/aqap_sdk/message.py: AQAPMessage; Validator is its validator
--   Sdk/Consumer  Consumer of sdk/aqap_sdk/consumer.py: the handling of a message, with Settling on what
--                 is acknowledged; Pending is _claim_pending, Running is start, stop and the loop
--   Sdk/Producer  StreamProducer of sdk/aqap_sdk/consumer.py
--   Sdk/Bridge    HTTPBridge of sdk/aqap_sdk/bridge/__init__.py: the two loops that read a request; Serving
--                 is handle, Pieces and Requests are on what is read, Accepting and Answers on the response
--   InMemory      aqap/transport/inmemory.py: queues are numbers into a store, `subscribe` is cut into
--                 its steps subscribe, take and unsubscribe; Inbox is on a queue with one consumer,
--                 Numbering and Subscribed on how a subscription makes one, Agent/Base/Delivery on an
--                 agent that calls this transport
--   Plugin        aqap/plugin/registry.py and base.py: a plugin is a record of functions on a world;
--                 Plugin/Validator, Scorer and TraceCollector are the plugins of these names in
--                 aqap/plugins; TraceCollector/Eviction counts what the index loses
--   Dlq           aqap/core/dlq.py
--   Security      aqap/core/security.py
--   Config        aqap/core/config.py: _merge, _load before its overrides, get; Environment is _env_override,
--                 Overrides and Spared say what it changes and what it leaves
--   Logging       aqap/core/log_config.py; Sticky is on what a call leaves for later ones
--   Agent/State   the fields of Agent.__init__ in aqap/agent/base.py, and the calls of the transport
--   Agent/Base    aqap/agent/base.py: consume is a round of _consume_loop, accept what follows the
--                 check for duplicates, process_one and handle_failure are the methods of these names;
--                 Once and Redelivery are on deliveries that come again, Lost on a letter that is lost
--   Agent/Lifecycle    start, stop and _heartbeat_loop of aqap/agent/base.py
--   Agent/Cleanup _idempotency_cleanup_loop of aqap/agent/base.py
--   Agent/Workers run_plugins of aqap/agent/base.py, and aqap/agent/probe.py, judge.py, reporter.py;
--                 Pipeline follows a task through the three
--   Agent/Scheduler    aqap/agent/scheduler.py
--   Agent/DlqConsumer  aqap/agent/dlq_consumer.py
--   Agent/Supervisor   aqap/agent/supervisor.py
--   Engine        aqap/core/engine.py: Agents, Plugins and Starting hold the methods, Failure what a
--                 start that raises leaves; HotReload is aqap/config_hotreload.py, with Watching on
--                 the end of its loop and Refresh on what a change does
--   Network       aqap/transport/redis_streams.py, kafka_transport.py and rabbitmq_transport.py
--   Cli           aqap/cli.py: the commands on dead letters; Commands holds the others and main,
--                 Unreachable what the commands on traces find
--   Admin         aqap/admin.py: the endpoints; Restarting, Letters and Traces hold their theorems
--   Tests         the theorems at concrete inputs
--
-- A method is a function from the object's state to a result and the state after it: what was done
-- before an exception stays done. The calls of an agent's transport are a log, and a schedule of faults
-- says which of them raise. What an agent uses of the world outside (identifiers, clocks, ciphers,
-- plugins, a subclass's handler) are functions on a world of any type. Loops over lists are structural
-- recursion; a loop that waits for messages or sleeps is given by its round, and run for
-- a list that says what happens in each round. The fuel of
-- the decimal digits of a number is the number itself, which has no more digits; that of the loop over
-- the body of an HTTP request is the count of its tests, for which one more than the pieces read is
-- enough where the body is complete, and no fuel is where it is cut off.
--
-- Parameters: Unicode's tables (`Python`); the arithmetic on scores and the printing of values
-- (`Numbers`, `Arithmetic`); the packages that encrypt, with `json` and `base64` (`Crypto`); the clients
-- of Redis, Kafka and RabbitMQ, whose calls are a log with a schedule of faults; the constructors,
-- imports and logging that the engine calls (`System`); the codecs and the identifiers of the bridge
-- (`Bridge`), and where the command line and the pages find the state of the DLQ consumer and the trace
-- collector (`Office`). The order of a set is the
-- field `set_order` of the supervisor. Times are whole units of the clock. Unicode case
-- mapping works character by character.
--
-- Not modelled: interleavings at an `await` inside one method (but for the calls that others make
-- while a consumer of the in-memory transport waits), what the overrides from the environment leave
-- in DEFAULTS, the cancellation of tasks, a plugin that
-- changes the context it shares with the next, JSON text, limits of a configuration that are no natural
-- numbers, the opening of the bridge's server, the logging package itself, the parser of the
-- command line, the web framework of the admin pages, the SDK's build copy, the Rust extension.
pub mod Prelude
pub mod Value
pub mod Text
pub mod Message
pub mod Validate
pub mod Sdk
pub mod InMemory
pub mod Plugin
pub mod Dlq
pub mod Security
pub mod Config
pub mod Logging
pub mod Agent
pub mod Engine
pub mod Network
pub mod Cli
pub mod Admin
pub mod Tests
