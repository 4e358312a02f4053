-- ===== src/Message/Build.antt =====
-- Replies and the constructor functions of aqap/core/message.py. What a default factory would
-- draw comes as the argument `Fresh`.
use aqap.Prelude.{String, Option, none, some, true, ◌==◌, if◌then◌else◌}
use aqap.Value.{bool, str, obj, Fields, end, field}
use aqap.Message.Types.{MessageType, agent_probe, agent_judge, agent_reporter}
use aqap.Message.Wire.{Message, Fresh, new_message}

-- `payload or {}`: an empty dict is the empty dict
abbrev or_empty : Option Fields → Fields
or_empty none = end
or_empty (some p) = p

unfoldable pub reply : Fresh → Message → MessageType → Option Fields → Message
unfolding new_message
reply f m type payload =
    record (new_message f type (if m.target == "" then m.source else m.target) (or_empty payload)) {
      target = m.source;
      topic = m.topic;
      trace_id = m.trace_id;
      correlation_id = m.message_id;
    }

unfoldable pub task_dispatch : Fresh → String → Fields → Message
unfolding new_message
task_dispatch f source payload = record (new_message f MessageType.task_dispatch source payload) {
  topic = agent_probe;
}

unfoldable pub task_result : Fresh → String → Fields → Message
unfolding new_message
task_result f source payload = record (new_message f MessageType.task_result source payload) {
  topic = agent_judge;
}

unfoldable pub judge_request : Fresh → String → String → Fields → Message
unfolding new_message
judge_request f source target evidence =
    record (new_message f MessageType.judge_request source evidence) {
      target = target;
      topic = agent_judge;
    }

unfoldable pub judge_verdict : Fresh → String → Fields → Message
unfolding new_message
judge_verdict f source payload = record (new_message f MessageType.judge_verdict source payload) {
  topic = agent_reporter;
}

-- `status or {"alive": True}`
abbrev status_or_alive : Option Fields → Fields
status_or_alive none = field "alive" (bool true) end
status_or_alive (some end) = field "alive" (bool true) end
status_or_alive (some (field k v fs)) = field k v fs

unfoldable pub heartbeat : Fresh → String → Option Fields → Message
heartbeat f agent_id status =
    new_message f MessageType.heartbeat agent_id (field "status" (obj (status_or_alive status)) end)

unfoldable pub error_message : Fresh → String → String → String → String → String → Message
error_message f source code message trace_id original_message_id =
    new_message f MessageType.error source (
      field "code" (str code) (
        field "message" (str message) (
          field "trace_id" (str trace_id)
            (field "original_message_id" (str original_message_id) end))))
