-- ===== src/Examples/Streams.antt =====
-- The theorems about calls and the streams of the Triple protocol, at concrete inputs.
use node_dubbo.Prelude.{
  false, ◌++◌, zero, suc, ◌≤◌, ◌≡◌, refl, true, List, [], ◌∷◌, Option, none, some, length, arith,
  lower, lower_char,
}
use node_dubbo.ByteArray.{Bytes, zeros, set_at, set_uint32}
use node_dubbo.Headers.{get}
use node_dubbo.Headers.Entry
use node_dubbo.Error.{Code, DubboError, Reason, native, ok, thrown, error, dubbo}
use node_dubbo.Stream.{Stream, finished, raised, yields, values, before}
use node_dubbo.Envelope.{EnvelopedMessage, encode_envelope, envelope_compress}
use node_dubbo.Iterable.{
  Serialization, item, end_item, map_or_raise, serialize_parsed, serialize_item,
  transform_serialize_parsed, transform_serialize_envelope, transform_catch_finally,
  transform_compress_envelope, transform_join_envelopes,
}
use node_dubbo.Iterable.Split.Chunks.{joined}
use node_dubbo.Iterable.Writable.{
  Call, write, close, next, create_writable_iterable, step, call, on_next, next_in, take_first,
  on_write, on_close, process, process_in, hand_over, settle, run,
}
use node_dubbo.Iterable.Writable.Order.{AllCalm, reads, queued, accepted, nexts}
use node_dubbo.Iterable.Writable.Delivery.{run-create_writable_iterable}
use node_dubbo.Invoke.{server_streaming, Effects}
use node_dubbo.Pipeline.{send_envelopes, ReadsBack, ReadsAs}
use node_dubbo.Triple.Request.{
  look_up, parse_content_type, check_version, require_protocol_version_header,
}
use node_dubbo.Triple.StreamHandler.{
  EndStreamResponse, HandlerOptions, ServerRequest, byte_stream, check_request,
  create_stream_handler, respond, end_envelope, end_of,
}
use node_dubbo.Triple.StreamClient.{read_response}
use node_dubbo.Triple.Delivery.{delivered, sent_items, read_response-respond}
use node_dubbo.Triple.Refusal.{
  negotiated, timeout_of, TakesOne, refusal, create_stream_handler-check_request,
}

-- Messages as they are.
abbrev pub plain_messages : Serialization Bytes
plain_messages = record { serialize = λ b. ok b; parse = λ b. ok b }

pub plain_messages-ReadsBack : ReadsBack plain_messages
plain_messages-ReadsBack value bytes h = ground arith

-- An end of which only the presence of an error is written.
abbrev failed : EndStreamResponse
failed = record { metadata = []; error = some (error "failed" Code.unknown) }

abbrev passed : EndStreamResponse
passed = record { metadata = []; error = none }

abbrev mark_of : Option DubboError → Bytes
mark_of none = 0 ∷ []
mark_of (some e) = 1 ∷ []

abbrev end_of_mark : Bytes → EndStreamResponse
end_of_mark [] = failed
end_of_mark (zero ∷ bytes) = passed
end_of_mark (suc n ∷ bytes) = failed

abbrev pub marks : Serialization EndStreamResponse
marks = record { serialize = λ e. ok (mark_of e.error); parse = λ b. ok (end_of_mark b) }

abbrev pub seen : EndStreamResponse → EndStreamResponse
seen e = end_of_mark (mark_of e.error)

pub marks-ReadsAs : ReadsAs marks seen
marks-ReadsAs value bytes h = ground arith

abbrev pub outputs : Stream Bytes
outputs = yields (7 ∷ 8 ∷ []) (raised (native "Error" "broken"))

abbrev pub sent_envelopes : List EnvelopedMessage
sent_envelopes =
    record { flags = 0; payload = 7 ∷ 8 ∷ [] } ∷ record { flags = 2; payload = 1 ∷ [] } ∷ []

abbrev pub body_chunks : List Bytes
body_chunks = (0 ∷ 0 ∷ 0 ∷ 0 ∷ 2 ∷ 7 ∷ []) ∷ (8 ∷ 2 ∷ 0 ∷ 0 ∷ 0 ∷ 1 ∷ 1 ∷ []) ∷ []

pub envelopes_sent :
    send_envelopes plain_messages 2 marks none 1024 (sent_items plain_messages marks [] outputs)
    ≡ before sent_envelopes finished
unfolding send_envelopes transform_compress_envelope transform_serialize_parsed serialize_parsed
    map_or_raise envelope_compress end_of
envelopes_sent = refl

pub body_sent :
    joined body_chunks ≡ joined (values (respond plain_messages marks [] none 1024 outputs))
unfolding respond end_envelope transform_catch_finally transform_serialize_envelope serialize_item
    transform_compress_envelope transform_join_envelopes map_or_raise envelope_compress
    encode_envelope zeros set_at set_uint32 end_of
body_sent = refl

pub short_item :
    (value : Bytes) (env : EnvelopedMessage)
    → length value ≤ 64
    → serialize_parsed plain_messages 2 marks (item value) ≡ ok env
    → length env.payload ≤ 64
unfolding serialize_parsed
short_item value env l h = ground arith

pub short_end :
    (value : EndStreamResponse) (env : EnvelopedMessage)
    → length (mark_of value.error) ≤ 64
    → serialize_parsed plain_messages 2 marks (end_item value) ≡ ok env
    → length env.payload ≤ 64
unfolding serialize_parsed
short_end value env l h = ground arith

read_response_example :
    read_response plain_messages marks none 64 (before body_chunks finished)
    ≡ delivered plain_messages marks [] seen outputs
unfolding end_of
read_response_example =
    read_response-respond plain_messages marks [] seen none 1024 64 outputs sent_envelopes
      body_chunks plain_messages-ReadsBack marks-ReadsAs tt (omega arith)
      (λ env h. short_item _ env (omega arith) h, (λ env h. short_end _ env (omega arith) h, tt))
      envelopes_sent (omega arith) body_sent

abbrev strict : HandlerOptions
strict = record {
  accept_compression = [];
  compress_min_bytes = 1024;
  read_max_bytes = 64;
  require_connect_protocol_header = true;
  max_timeout_ms = 1000;
}

abbrev bare_request : ServerRequest
bare_request = record {
  method = "POST";
  header = ("content-type", "application/connect+proto") ∷ [];
  body = byte_stream finished;
}

abbrev missing_version : Reason
missing_version =
    dubbo
      (error "missing required header: set TRI-Protocol-Version to \"1.0.0\"" Code.invalid_argument)

-- An implementation that would set a header and a trailer.
abbrev tagging : Stream Bytes → Effects
tagging input = record {
  to_header = λ h. ("x-tag", "1") ∷ h;
  to_trailer = λ t. ("x-cost", "7") ∷ t;
}

bare_request-IsRefused :
    check_request strict
      (λ _. plain_messages)
      bare_request
      (negotiated strict bare_request.header)
      (timeout_of strict bare_request.header)
    ≡ thrown missing_version
unfolding check_request require_protocol_version_header check_version get Entry.get lower lower_char
bare_request-IsRefused = refl

twice-TakesOne : TakesOne (server_streaming (λ (b : Bytes). yields b (yields b finished)))
unfolding TakesOne
twice-TakesOne = tt

bare_request_type :
    parse_content_type (get "Content-Type" bare_request.header)
    ≡ some (record { stream = true; binary = true })
unfolding parse_content_type look_up get Entry.get lower lower_char
bare_request_type = refl

uncalled_example :
    create_stream_handler strict
      (λ _. plain_messages)
      (λ _. plain_messages)
      marks
      (λ (b : Bytes). ok b)
      (server_streaming (λ b. yields b (yields b finished)))
      tagging
      bare_request
    ≡ refusal strict marks bare_request true missing_version
uncalled_example =
    create_stream_handler-check_request strict (λ _. plain_messages) (λ _. plain_messages) marks
      (λ (b : Bytes). ok b) (server_streaming (λ b. yields b (yields b finished))) tagging
      bare_request finished (record { stream = true; binary = true }) missing_version twice-TakesOne
      bare_request-IsRefused refl bare_request_type refl refl

-- A reader that waits, two writes and the close, and two readers more.
abbrev some_calls : List (Call Bytes)
some_calls = next ∷ write (1 ∷ []) ∷ write (2 ∷ []) ∷ close ∷ next ∷ next ∷ []

some_calls-AllCalm : AllCalm create_writable_iterable some_calls
unfolding create_writable_iterable step call on_next next_in take_first on_write on_close process
    process_in hand_over settle
some_calls-AllCalm = (refl, (tt, (tt, (tt, (refl, (refl, tt))))))

writable_example :
    let w = run create_writable_iterable some_calls in
    (reads w.settled ++ queued w.queue ≡ accepted false some_calls)
    × (nexts some_calls ≤ length (accepted false some_calls) → w.reader ≡ none)
    × (length (accepted false some_calls) ≤ nexts some_calls → w.queue ≡ [])
writable_example = run-create_writable_iterable some_calls some_calls-AllCalm
