-- ===== src/Tests/Bridges.antt =====
-- The SDK's HTTP bridge at concrete inputs.
use aqap.Prelude.{
  Result, Option, ℕ, String, true, false, none, some, List, [], ◌∷◌, ◌++◌, take, ok, ◌≡◌, refl,
  ◌==◌, if◌then◌else◌, arith,
}
use aqap.Value.{null, pos, obj, end, get_field_or, truthy, has_field, get_field}
use aqap.Text.{ascii, codes, same_codes, isdigit, int_of, strip}
use aqap.Text.Numbers.{int_text, decimal_text}
use aqap.Config.Environment.{after_prefix}
use aqap.Message.{Message, wire, value}
use aqap.Sdk.Message.{to_dict, new_message, sdk_validate_message}
use aqap.Sdk.Consumer.{Consumer, text, acked, process_message}
use aqap.Sdk.Bridge.{
  Bytes, find_blank, read_head, read_body, head_of, body_of, split_at, split_lines, length_in,
  content_length, Request,
}
use aqap.Sdk.Bridge.Pieces.{joined}
use aqap.Sdk.Bridge.Serving.{
  Bridge, Connection, loaded, not_json, bridged, request_line, external_request, response, handle,
  receive, receive_body, received, answer,
}
use aqap.Sdk.Bridge.Requests.{handle_starves}
use aqap.Sdk.Bridge.Accepting.{request_at, after_accept, process_message-handle}
use aqap.Sdk.Bridge.Answers.{Served, handle-Served}
use aqap.Tests.{sample_fresh}
use aqap.Tests.Streams.{sample_consumer, sample_producer, unconnected, idle}

abbrev head_text : String
head_text = "POST /tasks HTTP/1.1\r\nContent-Length: 2"

-- the request in three pieces, the blank line cut in two
abbrev pieces : List Bytes
pieces = (codes head_text ++ 13 ∷ 10 ∷ []) ∷ (13 ∷ 10 ∷ b'{' ∷ []) ∷ (b'}' ∷ []) ∷ []

abbrev whole : Bytes
whole = joined pieces

abbrev sample_bridge : Bridge ℕ
sample_bridge = record {
  port = 8080;
  publish_topic = "aqap:agent:probe";
  py = ascii;
  lower = λ s.
      if s == "POST" then "post" else if s == "Content-Length: 2" then "content-length: 2" else s;
  decode = λ bytes. if same_codes bytes (codes head_text) then head_text else "";
  encode = λ s. ok (codes s);
  loads = λ bytes. if same_codes bytes (codes "{}") then loaded (obj end) else not_json;
  dumps = λ fs. ok "reply";
  text_of = λ e. "failed";
  draw = λ w. (sample_fresh, w);
  producer = sample_producer;
}

abbrev opened : Connection ℕ
opened = record { producer = unconnected; written = []; closed = false }

abbrev published : Message
published = bridged sample_bridge sample_fresh (request_at 39 whole) (obj end)

find_test : find_blank whole ≡ some 39
unfolding find_blank
find_test = refl

length_test :
    content_length ascii sample_bridge.lower
      (pos 0)
      (split_lines (sample_bridge.decode (take 39 whole)))
    ≡ ok (pos 2)
unfolding content_length split_lines split_at length_in strip int_text after_prefix
length_test = refl

abbrev short_pieces : List Bytes
short_pieces = (codes head_text ++ 13 ∷ 10 ∷ []) ∷ (13 ∷ 10 ∷ b'{' ∷ []) ∷ []

abbrev bridge_consumer : Consumer ℕ
bridge_consumer = record sample_consumer { loads = λ s. ok (obj (to_dict (wire published))) }

process_message-handle_example :
    (handle 4 sample_bridge (record { chunks = pieces; failure = none }) opened
      ≡ some (ok tt, after_accept published "message" (codes "reply") 1 opened))
    × (process_message bridge_consumer "7-0" (("json", text "message") ∷ []) idle ≡ record idle {
      stats = record { received = 0; acked = 1; failed = 0 };
      log = acked "aqap:agent:probe" "group-1" "7-0" ∷ [];
      world = 1;
    })
unfolding find_blank content_length split_lines split_at length_in strip int_text after_prefix
    external_request bridged request_line decimal_text new_message to_dict wire value
    sdk_validate_message truthy get_field_or isdigit int_of has_field get_field
process_message-handle_example =
    process_message-handle sample_bridge bridge_consumer 4
      (record { chunks = pieces; failure = none }) 39 2 opened idle (obj end) sample_fresh "message"
      "7-0" "reply" (codes "reply") 0 1 1 null (refl, (refl, (refl, tt))) refl refl refl
      (omega arith) refl refl refl refl refl refl refl refl refl refl refl refl refl refl

handle_starves_example :
    handle 1000 sample_bridge (record { chunks = short_pieces; failure = none }) opened ≡ none
unfolding find_blank content_length split_lines split_at length_in strip int_text after_prefix
handle_starves_example =
    handle_starves sample_bridge (record { chunks = short_pieces; failure = none }) 39 2 1000 opened
      refl (refl, (refl, tt)) refl refl (omega arith)

handle-Served_example :
    (read : Result (Option Request)) × (receive 4 sample_bridge
        (record { chunks = pieces; failure = none })
      ≡ some read)
    × ((after_accept published "message" (codes "reply") 1 opened).closed ≡ true)
    × Served sample_bridge read opened (after_accept published "message" (codes "reply") 1 opened)
unfolding handle receive received receive_body head_of body_of answer read_head read_body find_blank
    content_length split_lines split_at length_in strip int_text after_prefix external_request
    bridged request_line decimal_text new_message to_dict wire value response truthy
handle-Served_example =
    handle-Served 4 sample_bridge (record { chunks = pieces; failure = none }) opened
      (after_accept published "message" (codes "reply") 1 opened) (ok tt) refl
