-- ===== src/Message.antt =====
-- The message protocol: aqap/core/message.py.
mod Types
mod Wire
mod Build
pub mod RoundTrip
pub use Types.{MessageType, ErrorCode}
unfoldable pub use Types.{
  value, error_value, agent_inbox, members, find_type, of_value, resolve_type, agent_probe,
  agent_judge, agent_reporter, broadcast, system_events, plugin_events, dlq,
}
pub use Wire.{Envelope, Message, RawMessage, Fresh}
unfoldable pub use Wire.{wire, to_dict, from_dict, new_message}
unfoldable pub use Build.{
  reply, task_dispatch, task_result, judge_request, judge_verdict, heartbeat, error_message,
}
