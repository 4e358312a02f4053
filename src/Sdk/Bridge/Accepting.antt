-- ===== src/Sdk/Bridge/Accepting.antt =====
-- A request on its way to a consumer: `handle` of sdk/aqap_sdk/bridge/__init__.py, and the consumer
-- of sdk/aqap_sdk/consumer.py that reads the stream.
use aqap.Prelude.{
  ℕ, ◌+◌, ◌<◌, String, true, false, some, [], ◌∷◌, ◌++◌, take, drop, length, ok, ◌>>=◌, try_else,
  ◌==◌, ◌≡◌, refl,
}
use aqap.Value.{Value, pos, obj}
use aqap.Text.{Python}
use aqap.Message.{MessageType, Message, Fresh, wire}
use aqap.Sdk.Message.{to_dict, from_dict, new_message, sdk_validate_message}
use aqap.Sdk.Message.Interop.{from_dict-to_dict}
use aqap.Sdk.Consumer.{ConsumerState, Consumer, text, acked, process_message}
use aqap.Sdk.Consumer.Settling.{process_message-handled}
use aqap.Sdk.Producer.{outgoing, some_identifiers, stream_of, publish_lem, parse_json}
use aqap.Sdk.Bridge.{Bytes, Reader, Request, find_blank}
use aqap.Sdk.Bridge.Pieces.{joined, AllFull}
use aqap.Sdk.Bridge.Requests.{NamesLength, receive_complete}
use aqap.Sdk.Bridge.Serving.{
  Bridge, Connection, external_request, bridged, publish_message, drawn, reply, accepted, response,
  accept, answer, handle, handled,
}

-- the request that stands in the bytes, for a blank line at `i`
abbrev pub request_at : ℕ → Bytes → Request
request_at i whole = record { head = take i whole; body = drop (i + 4) whole }

-- what the connection holds once `m` has been published and the response written
abbrev pub after_accept : {W : Type 0} → Message → String → Bytes → W → Connection W → Connection W
after_accept m raw resp w s = record s {
  producer = record s.producer {
    connected = true;
    log = s.producer.log ++ record { stream = stream_of (wire m); json = raw; maxlen = 10000 } ∷ [];
    world = w;
  };
  written = s.written ++ response "HTTP/1.1 202 Accepted" resp ∷ [];
  closed = true;
}

module _ {W : Type 0} (b : Bridge W) where
  accept_lem :
      (r : Request) (s : Connection W) (payload : Value) (f : Fresh) (raw id reply : String)
      (resp : Bytes) (w w' : W)
      → external_request b r.body ≡ ok payload
      → b.draw s.producer.world ≡ (f, w)
      → b.producer.dumps (to_dict (wire (bridged b f r payload))) ≡ ok raw
      → b.producer.xadd w ≡ (ok id, w')
      → b.dumps (accepted (bridged b f r payload)) ≡ ok reply
      → b.encode reply ≡ ok resp
      → accept b r s
        ≡ (ok tt, record (after_accept (bridged b f r payload) raw resp w' s) { closed = s.closed })
  unfolding accept drawn publish_message reply ◌>>=◌
  accept_lem r s payload f raw id reply resp w w' read draws dumped added replied encoded =
      let m = bridged b f r payload in
      rw (read, draws)
        (rw
          (publish_lem b.producer (wire m) 10000 (record s.producer { world = w }) raw id w' dumped
            added)
          (rw (replied, encoded) refl))

  handle_accepts :
      (fuel : ℕ) (r : Reader) (i n : ℕ) (s : Connection W) (payload : Value) (f : Fresh)
      (raw id reply : String) (resp : Bytes) (w w' : W)
      → AllFull r.chunks
      → find_blank (joined r.chunks) ≡ some i
      → NamesLength b (take i (joined r.chunks)) (pos n)
      → length (joined r.chunks) ≡ i + 4 + n
      → length r.chunks < fuel
      → external_request b (drop (i + 4) (joined r.chunks)) ≡ ok payload
      → b.draw s.producer.world ≡ (f, w)
      → b.producer.dumps (to_dict (wire (bridged b f (request_at i (joined r.chunks)) payload)))
        ≡ ok raw
      → b.producer.xadd w ≡ (ok id, w')
      → b.dumps (accepted (bridged b f (request_at i (joined r.chunks)) payload)) ≡ ok reply
      → b.encode reply ≡ ok resp
      → handle fuel b r s
        ≡ some (
          ok tt,
          after_accept (bridged b f (request_at i (joined r.chunks)) payload) raw resp w' s,
        )
  unfolding handle answer try_else
  handle_accepts fuel r i n s payload f raw id reply resp w w' full found named whole enough read
        draws dumped added replied encoded =
      rw (receive_complete b fuel r i n full found named whole enough) (
        rw
          (accept_lem (request_at i (joined r.chunks)) s payload f raw id reply resp w w' read draws
            dumped added replied encoded)
          refl)

  some_identifiers-bridged :
      (f : Fresh) (r : Request) (payload : Value)
      → (f.message_id == "") ≡ false
      → (f.trace_id == "") ≡ false
      → (f.timestamp == "") ≡ false
      → (py : Python) (g : Fresh)
      → from_dict py g (to_dict (wire (bridged b f r payload))) ≡ ok (wire (bridged b f r payload))
  unfolding outgoing bridged new_message
  some_identifiers-bridged f r payload some_id some_trace some_time py g =
      let m = bridged b f r payload in
      let (h, k, l) =
        some_identifiers f MessageType.task_dispatch m.source "" b.publish_topic m.payload ""
          some_id some_trace some_time in
      from_dict-to_dict py g (wire m) h k l

  -- A request whose head names the length of its body, cut into any pieces that are not empty: the
  -- bridge publishes one message, built from the bytes as a whole, answers 202 and closes the
  -- connection; a consumer that gets the entry hands the same message, field by field, to its handler
  -- and acknowledges the entry once the handler has come back. The calls of json, of the encoder and
  -- of Redis succeed, json.loads reads back what json.dumps wrote, the validator accepts the message,
  -- and none of its identifiers is empty.
  pub process_message-handle :
      (c : Consumer W) (fuel : ℕ) (r : Reader) (i n : ℕ) (s : Connection W) (t : ConsumerState W)
      (payload : Value) (f : Fresh) (raw id reply : String) (resp : Bytes) (w w' w'' : W)
      (v : Value)
      → let m = bridged b f (request_at i (joined r.chunks)) payload in
        AllFull r.chunks
        → find_blank (joined r.chunks) ≡ some i
        → NamesLength b (take i (joined r.chunks)) (pos n)
        → length (joined r.chunks) ≡ i + 4 + n
        → length r.chunks < fuel
        → external_request b (drop (i + 4) (joined r.chunks)) ≡ ok payload
        → b.draw s.producer.world ≡ (f, w)
        → b.producer.dumps (to_dict (wire m)) ≡ ok raw
        → b.producer.xadd w ≡ (ok id, w')
        → b.dumps (accepted m) ≡ ok reply
        → b.encode reply ≡ ok resp
        → (f.message_id == "") ≡ false
        → (f.trace_id == "") ≡ false
        → (f.timestamp == "") ≡ false
        → (raw == "") ≡ false
        → c.loads raw ≡ ok (obj (to_dict (wire m)))
        → sdk_validate_message c.py (to_dict (wire m)) ≡ ok []
        → t.faults ≡ []
        → c.handler (wire m) (c.draw t.world).1 ≡ (ok v, w'')
        → (handle fuel b r s ≡ some (ok tt, after_accept m raw resp w' s))
          × (process_message c id (("json", text raw) ∷ []) t ≡ record t {
            stats = record t.stats { acked = t.stats.acked + 1 };
            log = t.log ++ acked c.topic c.group id ∷ [];
            world = w'';
          })
  process_message-handle c fuel r i n s t payload f raw id reply resp w w' w'' v full found named
        whole enough read draws dumped added replied encoded some_id some_trace some_time some_text
        loaded valid calm handled =
      let request = request_at i (joined r.chunks) in
      let m = bridged b f request payload in
      (
        handle_accepts fuel r i n s payload f raw id reply resp w w' full found named whole enough
            read draws dumped added replied encoded,
        process_message-handled c id (("json", text raw) ∷ []) t (to_dict (wire m)) (wire m) v w''
            calm (parse_json c raw (to_dict (wire m)) some_text loaded) valid
            (some_identifiers-bridged f request payload some_id some_trace some_time c.py
              (c.draw t.world).0)
            handled,
      )
