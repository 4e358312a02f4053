-- ===== src/Dlq.antt =====
-- Dead letter records: aqap/core/dlq.py.
use aqap.Prelude.{ℕ, String}
use aqap.Value.{int, pos, str, obj, Fields, end, field}

abbrev pub dlq_topic : String
dlq_topic = "aqap:dlq"

pub record DeadLetterRecord : Type 0 where
  pub original_message : Fields
  pub error : String
  pub retry_count : ℕ
  pub max_retries : ℕ
  pub failed_at : String
  pub failed_by : String

unfoldable pub to_dict : DeadLetterRecord → Fields
to_dict r = field "type" (str "DLQ") (
    field "original_message" (obj r.original_message) (
      field "error" (str r.error) (
        field "retry_count" (int (pos r.retry_count)) (
          field "max_retries" (int (pos r.max_retries))
            (field "failed_at" (str r.failed_at) (field "failed_by" (str r.failed_by) end))))))

-- `now` is what the default factory of `failed_at` draws
unfoldable pub create_dlq_message : String → Fields → String → ℕ → ℕ → String → DeadLetterRecord
create_dlq_message now original error retry_count max_retries failed_by = record {
  original_message = original;
  error = error;
  retry_count = retry_count;
  max_retries = max_retries;
  failed_at = now;
  failed_by = failed_by;
}
