-- ===== src/Web/GrpcTransport/Delivery.antt =====
-- What grpc-web-transport.ts reads of the response of a gRPC-web handler.
use node_dubbo.Prelude.{
  ℕ, ◌<◌, ◌≡◌, refl, sym, ap, fun_ext, ◌∙◌, Bool, true, false, List, map, [], ◌∷◌, ◌≢◌, none,
  length, arith, Bool-cases, inl, inr,
}
use node_dubbo.ByteArray.{Bytes}
use node_dubbo.Headers.{Headers}
use node_dubbo.Error.{Outcome, ok, thrown, ok_injective, other, ◌>>=◌}
use node_dubbo.Stream.{Stream, finished, raised, yields, values, before}
use node_dubbo.Envelope.{EnvelopedMessage, has_flag}
use node_dubbo.Iterable.{
  Serialization, Parsed, item, end_item, transform_parse_envelope, map_or_raise, parse_item,
  serialize_parsed, transform_serialize_parsed,
}
use node_dubbo.Iterable.Cut.{written, cut}
use node_dubbo.Iterable.Inverse.{
  AllOf, map_stream, yields_or_raises-eq-yields, yields_or_raises-ne-finished,
  map_or_raise-finished,
}
use node_dubbo.Iterable.Split.Chunks.{joined}
use node_dubbo.Pipeline.Ended
use node_dubbo.Pipeline.{ReadsBack, ReadsAs, seen_item, ItemFits, send_envelopes}
use node_dubbo.Triple.StreamClient.{and_yields}
use node_dubbo.Grpc.Status.{TextCoding, validate_trailer}
use node_dubbo.Grpc.Handler.{settle}
use node_dubbo.GrpcWeb.Trailer.{
  TextCoder, trailer_flag, trailer_parse, trailer_serialize, create_trailer_serialization,
}
use node_dubbo.GrpcWeb.Handler.{respond}
use node_dubbo.GrpcWeb.Client.{valid_or_raises}
use node_dubbo.GrpcWeb.Client.Delivery.{with_values, seen, closed, sent_items, respond-send}
use node_dubbo.Web.GrpcTransport.{read_body, parse_response_body}
use node_dubbo.Web.Plain.{received-send, uncompressed}

module _ {ℓ} {O : Type ℓ} (coding : TextCoding) (coder : TextCoder) (z : Serialization O) where
  -- The loop, over items that are parsed, up to the trailer.
  read_parsed : Bool → Headers → Stream (Parsed O Headers) → Stream O × Headers
  read_parsed true trailer finished = read_body coding coder z.parse true trailer finished
  read_parsed false trailer finished = read_body coding coder z.parse false trailer finished
  read_parsed received trailer (raised e) = (raised e, trailer)
  read_parsed true trailer (yields (end_item t) items) = (raised (other "extra trailer"), trailer)
  read_parsed true trailer (yields (item value) items) = (raised (other "extra message"), trailer)
  read_parsed false trailer (yields (end_item t) items) =
      valid_or_raises (validate_trailer coding t) t (λ h. read_parsed true h items) trailer
  read_parsed false trailer (yields (item value) items) =
      and_yields value (read_parsed false trailer items)

  abbrev parsed_as : EnvelopedMessage → Outcome (Parsed O Headers)
  parsed_as = parse_item z trailer_flag (create_trailer_serialization coder)

  bound_item :
      (o : Outcome O) (value : O)
      → ◌≡◌ {A = Outcome (Parsed O Headers)} (o >>= (λ v. ok (item v))) (ok (item value))
      → o ≡ ok value
  bound_item (ok v) value h = ground arith
  bound_item (thrown e) value h = cc

  not_end_item :
      (o : Outcome O) (t : Headers)
      → ◌≢◌ {A = Outcome (Parsed O Headers)} (o >>= (λ v. ok (item v))) (ok (end_item t))
  not_end_item (ok v) t h = cc
  not_end_item (thrown e) t h = cc

  end_item_injective :
      (a b : Headers)
      → ◌≡◌ {A = Outcome (Parsed O Headers)} (ok (end_item a)) (ok (end_item b))
      → a ≡ b
  end_item_injective a b h = ground arith

  parsed-item :
      (env : EnvelopedMessage) (value : O)
      → parsed_as env ≡ ok (item value)
      → (has_flag env.flags trailer_flag ≡ false) × (z.parse env.payload ≡ ok value)
  unfolding parse_item create_trailer_serialization
  parsed-item env value h = elim (Bool-cases (has_flag env.flags trailer_flag)) [
    | inl end ↦ absurd (cc (rw end at h))
    | inr clear ↦ (clear, bound_item (z.parse env.payload) value (rw clear at h))
  ]

  parsed-end_item :
      (env : EnvelopedMessage) (t : Headers)
      → parsed_as env ≡ ok (end_item t)
      → (has_flag env.flags trailer_flag ≡ true) × (trailer_parse coder env.payload ≡ t)
  unfolding parse_item create_trailer_serialization
  parsed-end_item env t h = elim (Bool-cases (has_flag env.flags trailer_flag)) [
    | inl end ↦ (end, end_item_injective (trailer_parse coder env.payload) t (rw end at h))
    | inr clear ↦ absurd (not_end_item (z.parse env.payload) t (rw clear at h))
  ]

  read_body-parsed :
      (received : Bool) (trailer : Headers) (es : List EnvelopedMessage)
      (items : List (Parsed O Headers))
      → transform_parse_envelope z trailer_flag
          (create_trailer_serialization coder)
          (before es finished)
        ≡ before items finished
      → read_body coding coder z.parse received trailer (before es finished)
        ≡ read_parsed received trailer (before items finished)
  unfolding transform_parse_envelope map_or_raise read_body read_parsed
  read_body-parsed true trailer [] [] h = refl
  read_body-parsed false trailer [] [] h = refl
  read_body-parsed received trailer [] (x ∷ items) h = cc
  read_body-parsed received trailer (env ∷ es) [] h =
      absurd (yields_or_raises-ne-finished (parsed_as env) _ h)
  read_body-parsed true trailer (env ∷ es) (item value ∷ items) h =
      let (parsed, rest) =
        yields_or_raises-eq-yields (parsed_as env) _ (item value) (before items finished) h in
      rw (parsed-item env value parsed).0 refl
  read_body-parsed true trailer (env ∷ es) (end_item t ∷ items) h =
      let (parsed, rest) =
        yields_or_raises-eq-yields (parsed_as env) _ (end_item t) (before items finished) h in
      rw (parsed-end_item env t parsed).0 refl
  read_body-parsed false trailer (env ∷ es) (item value ∷ items) h =
      let (parsed, rest) =
        yields_or_raises-eq-yields (parsed_as env) _ (item value) (before items finished) h in
      let (clear, read) = parsed-item env value parsed in
      rw (clear, read) (ap (and_yields value) (read_body-parsed false trailer es items rest))
  read_body-parsed false trailer (env ∷ es) (end_item t ∷ items) h =
      let (parsed, rest) =
        yields_or_raises-eq-yields (parsed_as env) _ (end_item t) (before items finished) h in
      let (end, read) = parsed-end_item env t parsed in
      rw (end, read)
        (ap (λ k. valid_or_raises (validate_trailer coding t) t k trailer)
          (fun_ext (λ u. read_body-parsed true u es items rest)))

  map_stream-before :
      (f : Parsed O Headers → Parsed O Headers) (xs : List (Parsed O Headers))
      → map_stream f (before xs finished) ≡ before (map f xs) finished
  map_stream-before f [] = refl
  map_stream-before f (x ∷ xs) = ap (yields (f x)) (map_stream-before f xs)

  reads_trailer : ReadsAs (create_trailer_serialization coder) (seen coding coder)
  unfolding create_trailer_serialization
  reads_trailer value bytes run =
      ap (λ b. ok (trailer_parse coder b))
        (ok_injective bytes (trailer_serialize coder value) (sym run))

  module _ (trailer : Headers) where
    read_step :
        (value : O) (o : Outcome Bytes) (s : Stream O) (t : Headers)
        → settle coding trailer (cut z.serialize value o (written z.serialize s)).1 ≡ ok t
        → (settle coding trailer (written z.serialize s).1 ≡ ok t
            → read_parsed false []
                (map_stream (seen_item (seen coding coder)) (sent_items coding coder z trailer s))
              ≡ with_values (written z.serialize s).0 (closed coding coder (seen coding coder t)))
        → read_parsed false [] (
            map_stream (seen_item (seen coding coder)) (
              Ended.after z trailer_flag
                (create_trailer_serialization coder)
                (settle coding trailer)
                value
                o
                (sent_items coding coder z trailer s)))
          ≡ with_values
              (cut z.serialize value o (written z.serialize s)).0
              (closed coding coder (seen coding coder t))
    unfolding read_parsed read_body
    read_step value (ok bytes) s t h rest = ap (and_yields value) (rest h)
    read_step value (thrown e) s t h rest = rw h refl

    read_sent :
        (s : Stream O) (t : Headers)
        → settle coding trailer (written z.serialize s).1 ≡ ok t
        → read_parsed false []
            (map_stream (seen_item (seen coding coder)) (sent_items coding coder z trailer s))
          ≡ with_values (written z.serialize s).0 (closed coding coder (seen coding coder t))
    unfolding read_parsed read_body
    read_sent finished t h = rw h refl
    read_sent (raised e) t h = rw h refl
    read_sent (yields value s) t h = read_step value (z.serialize value) s t h (read_sent s t)

    -- The gRPC-web transport for browsers, if the header had no status, reads the body of a gRPC-
    -- web handler that does not compress, however it is cut into chunks, as the outputs of the
    -- handler up to the first one that cannot be serialized, and then throws the error in the
    -- trailer, as it is read, or returns with its fields as the trailer of the response. That is
    -- if the serialization of the messages reads back what it writes, every message is shorter
    -- than 2 ^ 31, setting the status of the trailer does not throw, and there is fuel for one
    -- pull more than there are messages.
    pub parse_response_body-respond :
        (min : ℕ) (s : Stream O) (sent : List EnvelopedMessage) (cs : List Bytes) (fuel : ℕ)
        (t : Headers)
        → ReadsBack z
        → AllOf
            (ItemFits z trailer_flag (create_trailer_serialization coder) none 2147483647)
            (sent_items coding coder z trailer s)
        → send_envelopes z trailer_flag
            (create_trailer_serialization coder)
            none
            min
            (sent_items coding coder z trailer s)
          ≡ before sent finished
        → joined cs ≡ joined (values (respond coding coder z trailer none min s))
        → length sent < fuel
        → settle coding trailer (written z.serialize s).1 ≡ ok t
        → parse_response_body coding coder z.parse false fuel (before cs finished)
          ≡ with_values (written z.serialize s).0 (closed coding coder (seen coding coder t))
    unfolding parse_response_body
    parse_response_body-respond min s sent cs fuel t rz items sends same enough h =
        let tz = create_trailer_serialization coder in
        let (read, parsed) =
          received-send z trailer_flag tz (seen coding coder) min
            (sent_items coding coder z trailer s) sent cs fuel rz reads_trailer (omega arith) items
            sends
            (same ∙ ap (λ t. joined (values t)) (respond-send coding coder z trailer none min s))
            enough in
        let (xs, whole) =
          map_or_raise-finished (serialize_parsed z trailer_flag tz)
            (sent_items coding coder z trailer s) sent
            (unfold transform_serialize_parsed send_envelopes in
              uncompressed min
                (transform_serialize_parsed z trailer_flag tz (sent_items coding coder z trailer s))
                sent sends) in
        let listed =
          ap (map_stream (seen_item (seen coding coder))) whole
          ∙ map_stream-before (seen_item (seen coding coder)) xs in
        ap (read_body coding coder z.parse false []) read
        ∙ read_body-parsed false [] sent (map (seen_item (seen coding coder)) xs) (parsed ∙ listed)
        ∙ ap (read_parsed false []) (sym listed)
        ∙ read_sent s t h
