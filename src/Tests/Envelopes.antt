-- ===== src/Tests/Envelopes.antt =====
-- The theorems on messages and their validation, at concrete inputs.
use aqap.Prelude.{ok, ◌≡◌, refl, arith, inl}
use aqap.Value.{str, obj, Fields, end, field, get_field_or, get_field}
use aqap.Text.{ascii}
use aqap.Message.{MessageType, wire, to_dict, from_dict, new_message}
use aqap.Message.RoundTrip.{from_dict-to_dict}
use aqap.Validate.{validate_message, source_issues}
use aqap.Validate.Laws.{validate-new_message}
use aqap.Sdk.Message as SdkMessage
use aqap.Sdk.Message.Interop.{from_dict-eq-core}
use aqap.Tests.{sample_fresh, sample_payload, sample_raw}

abbrev sample_entries : Fields
sample_entries =
    field "type" (str "task_dispatch") (
      field "source" (str "sender-1") (field "version" (str "1.0") (field "payload" (obj end) end)))

from_dict-to_dict_example : from_dict ascii sample_fresh (to_dict sample_raw) ≡ sample_raw
from_dict-to_dict_example = from_dict-to_dict ascii sample_fresh sample_raw

from_dict-eq-core_example :
    SdkMessage.from_dict ascii sample_fresh sample_entries
    ≡ ok (from_dict ascii sample_fresh sample_entries)
unfolding get_field get_field_or
from_dict-eq-core_example =
    from_dict-eq-core ascii sample_fresh sample_entries refl (inl refl) (inl refl) (inl refl)

validate-new_message_example :
    validate_message ascii
      (to_dict (wire (new_message sample_fresh MessageType.task_dispatch " " sample_payload)))
    ≡ ok (source_issues ascii (str " "))
validate-new_message_example =
    validate-new_message ascii sample_fresh MessageType.task_dispatch " " sample_payload refl
      (omega arith)
