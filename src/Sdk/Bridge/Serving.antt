-- ===== src/Sdk/Bridge/Serving.antt =====
-- `handle`, the callback of `HTTPBridge._serve` in sdk/aqap_sdk/bridge/__init__.py.
use aqap.Prelude.{
  ℕ, String, Bool, true, Option, none, some, List, [], ◌∷◌, ◌++◌, if◌then◌else◌, length, Result, ok,
  err, bind, Exc, Exec, return, ◌>>=◌, ◌>>◌, try_else,
}
use aqap.Value.{Value, pos, str, obj, Fields, end, field}
use aqap.Text.{Python, codes, ◌+s◌}
use aqap.Text.Numbers.{decimal_text}
use aqap.Message.{MessageType, Message, Fresh, wire}
use aqap.Sdk.Message.{new_message}
use aqap.Sdk.Producer.{ProducerState, Producer, publish}
use aqap.Sdk.Bridge.{
  Bytes, Reader, Request, is_empty, read_head, read_body, head_of, body_of, split_at, split_lines,
  second, content_length, wanted,
}

-- json.loads(body): a value, a JSONDecodeError, or another exception
pub data Loaded : Type 0 where
  loaded : Value → Loaded
  not_json : Loaded
  failed : Exc → Loaded

-- The bridge's settings, and what it uses of Python: `decode` replaces what is no UTF-8, `encode`
-- may raise, `dumps` is json.dumps, `text_of` is str(e).
pub record Bridge (W : Type 0) : Type 0 where
  pub port : ℕ
  pub publish_topic : String
  pub py : Python
  pub lower : String → String
  pub decode : Bytes → String
  pub encode : String → Result Bytes
  pub loads : Bytes → Loaded
  pub dumps : Fields → Result String
  pub text_of : Exc → String
  pub draw : W → Fresh × W
  pub producer : Producer W

pub record Connection (W : Type 0) : Type 0 where
  pub producer : ProducerState W
  pub written : List Bytes
  pub closed : Bool

-- parts[0]; `split` gives one part or more
abbrev pub first_of : List String → String
first_of [] = "GET"
first_of (part ∷ parts) = part

-- parts[1] if len(parts) > 1 else "/"
abbrev path_of : Result String → String
path_of (ok path) = path
path_of (err e) = "/"

abbrev crlf : Bytes
crlf = 13 ∷ 10 ∷ []

-- The bytes of a response: the status line, the type and the length of the body, and the body.
unfoldable pub response : String → Bytes → Bytes
unfolding decimal_text
response status body =
    codes status
    ++ (crlf
        ++ (codes "Content-Type: application/json"
            ++ (crlf
                ++ (codes "Content-Length: "
                    ++ (codes (decimal_text (length body)) ++ (crlf ++ (crlf ++ body)))))))

abbrev pub accepted : Message → Fields
accepted m =
    field "status" (str "accepted")
      (field "message_id" (str m.message_id) (field "trace_id" (str m.trace_id) end))

abbrev requested : Bytes → Result Bytes → Result (Option Request)
requested head (ok body) = ok (some (record { head = head; body = body }))
requested head (err e) = err e

abbrev pub all_read : Bytes → Option (Result Bytes) → Option (Result (Option Request))
all_read head none = none
all_read head (some body) = some (requested head body)

module _ {W : Type 0} where
  abbrev pure : {A : Type 0} → Result A → Exec (Connection W) A
  pure r s = (r, s)

  unfoldable pub request_line : Bridge W → Bytes → List String
  unfolding split_lines split_at
  request_line b head = split_at b' ' (first_of (split_lines (b.decode head)))

  -- the message's payload, for what stands in the body
  unfoldable pub external_request : Bridge W → Bytes → Result Value
  external_request b body = if is_empty body then ok (obj end) else elim (b.loads body) [
    | loaded v ↦ ok v
    | not_json ↦ ok (obj (field "raw_body" (str (b.decode body)) end))
    | failed e ↦ err e
  ]

  unfoldable pub bridged : Bridge W → Fresh → Request → Value → Message
  unfolding request_line new_message
  bridged b f r payload =
      let parts = request_line b r.head in
      record (new_message f MessageType.task_dispatch
        ("http-" +s b.lower (first_of parts) +s "-" +s decimal_text b.port)
        (field "http_method" (str (first_of parts)) (
          field "http_path" (str (path_of (second parts)))
            (field "external_request" payload end)))) { target = ""; topic = b.publish_topic }

  -- await self._publish(msg)
  unfoldable pub publish_message : Bridge W → Message → Exec (Connection W) String
  unfolding publish wire
  publish_message b m s =
      let (r, p) = publish b.producer (wire m) 10000 s.producer in (r, record s { producer = p })

  unfoldable pub write : Bytes → Exec (Connection W) (Unit {0})
  write bytes s = (ok tt, record s { written = s.written ++ bytes ∷ [] })

  unfoldable pub drawn : Bridge W → Exec (Connection W) Fresh
  drawn b s =
      let p : ProducerState W = s.producer in
      let (f, w) = b.draw p.world in (ok f, record s { producer = record p { world = w } })

  unfoldable pub reply : Bridge W → String → Fields → Exec (Connection W) (Unit {0})
  unfolding write response ◌>>=◌
  reply b status entries = do
    resp ← pure (bind (b.dumps entries) b.encode)
    write (response status resp)

  -- the `try` from the parsing of the body on
  unfoldable pub accept : Bridge W → Request → Exec (Connection W) (Unit {0})
  unfolding external_request drawn bridged publish_message reply ◌>>=◌
  accept b r = do
    payload ← pure (external_request b r.body)
    f ← drawn b
    publish_message b (bridged b f r payload)
    reply b "HTTP/1.1 202 Accepted" (accepted (bridged b f r payload))

  -- `except Exception`
  unfoldable pub refuse : Bridge W → Exc → Exec (Connection W) (Unit {0})
  unfolding reply
  refuse b e = reply b "HTTP/1.1 500" (field "error" (str (b.text_of e)) end)

  -- the lines of the head, and the rest of the body
  unfoldable pub receive_body :
      ℕ → Bridge W → Option Exc → Bytes → List Bytes → Option (Result (Option Request))
  receive_body fuel b failure got rest =
      elim (content_length b.py b.lower (pos 0) (split_lines (b.decode (head_of got)))) [
        | err e ↦ some (err e)
        | ok clen ↦ all_read (head_of got) (read_body fuel (wanted clen) failure (body_of got) rest)
      ]

  -- what follows the first loop
  unfoldable pub received :
      ℕ → Bridge W → Option Exc → Result Bytes → List Bytes → Option (Result (Option Request))
  received fuel b failure (err e) rest = some (err e)
  received fuel b failure (ok got) rest =
      if is_empty got then some (ok none) else receive_body fuel b failure got rest

  -- What is read of a request. `ok none`: the connection ended before the first byte. Outside, `none`
  -- says that the fuel did not end the loop over the body.
  unfoldable pub receive : ℕ → Bridge W → Reader → Option (Result (Option Request))
  receive fuel b r =
      let (read, rest) = read_head r.failure [] r.chunks in received fuel b r.failure read rest

  -- what follows the reading
  unfoldable pub answer : Bridge W → Result (Option Request) → Exec (Connection W) (Unit {0})
  unfolding accept refuse try_else
  answer b (ok none) = return tt
  answer b (ok (some r)) = try_else (accept b r) return (refuse b)
  answer b (err e) = refuse b e

  -- `finally: writer.close()`
  abbrev pub close : Result (Unit {0}) × Connection W → Result (Unit {0}) × Connection W
  close (r, s) = (r, record s { closed = true })

  abbrev pub handled :
      Bridge W
      → Connection W
      → Option (Result (Option Request))
      → Option (Result (Unit {0}) × Connection W)
  handled b s none = none
  handled b s (some read) = some (close (answer b read s))

  unfoldable pub handle :
      ℕ → Bridge W → Reader → Connection W → Option (Result (Unit {0}) × Connection W)
  handle fuel b r s = handled b s (receive fuel b r)
