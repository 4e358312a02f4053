-- ===== src/Network.antt =====
-- The transports over a network, aqap/transport: what they have in common. The clients, and the
-- `json` module, are parameters.
pub mod Redis
pub mod Kafka
pub mod RabbitMq
use aqap.Prelude.{ℕ, String, Option, none, some, List, Result, ok, err, Exc, attribute_error}
use aqap.Value.{Value, obj, Fields}
use aqap.Text.{Python}
use aqap.Message.{RawMessage, Fresh, from_dict}

-- `decode` is `bytes.decode`, and has no value where that raises UnicodeDecodeError; `loads` has none
-- where json.loads raises JSONDecodeError.
pub record Codec : Type 0 where
  pub py : Python
  pub dumps : Fields → Result String
  pub encode : String → List ℕ
  pub decode : List ℕ → Option String
  pub loads : String → Option Value

-- what becomes of a record: a message, a JSONDecodeError, or another exception
pub data Parsed : Type 0 where
  parsed : RawMessage → Parsed
  no_json : Parsed
  fatal : Exc → Parsed

-- Message.from_dict(document), which raises for a document that is no dict
abbrev of_document : Python → Fresh → Value → Parsed
of_document py f (obj entries) = parsed (from_dict py f entries)
of_document py f _ = fatal attribute_error

abbrev pub of_json : Python → Fresh → Option Value → Parsed
of_json py f none = no_json
of_json py f (some document) = of_document py f document
