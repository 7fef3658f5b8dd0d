-- ===== src/Client/Promise.antt =====
-- packages/dubbo/src/promise-client.ts. `onHeader` and `onTrailer` are left out.
use node_dubbo.Prelude.{Option, none, some, ◌∷◌, []}
use node_dubbo.Error.{Code, Outcome, ok, thrown, raise, ◌>>=◌}
use node_dubbo.Stream.{Stream, finished, raised, yields, create_async_iterable}
use node_dubbo.Iterable.{map_or_raise}
use node_dubbo.Client.{Response, StreamResponse}

module _ {ℓ κ} {P : Type ℓ} {I : Type κ} (partial : P → I) where
  -- `new method.I(partial)`, or the message itself.
  unfoldable pub inputs : Stream P → Stream I
  inputs request = map_or_raise (λ p. ok (partial p)) request

module _ {ℓ} {O : Type ℓ} where
  -- The messages of the response, or what was thrown for it.
  abbrev pub messages_of : Outcome (StreamResponse O) → Stream O
  messages_of (ok res) = res.messages
  messages_of (thrown e) = raised e

  -- `for await (const message of response.message) singleMessage = message`.
  unfoldable pub last_message : Option O → Stream O → Outcome (Option O)
  last_message found finished = ok found
  last_message found (raised e) = thrown e
  last_message found (yields message s) = last_message (some message) s

  abbrev pub single_or_missing : Option O → Outcome O
  single_or_missing none = raise "protocol error: missing response message" Code.internal
  single_or_missing (some message) = ok message

unfoldable pub call_unary {ℓ μ} :
    {P : Type ℓ} {O : Type μ} → (P → Outcome (Response O)) → P → Outcome O
call_unary unary input = unary input >>= (λ res. ok res.message)

module _ {ℓ κ μ} {P : Type ℓ} {I : Type κ} {O : Type μ} where
  unfoldable pub call_server_streaming :
      (P → I) → (Stream I → Outcome (StreamResponse O)) → P → Stream O
  call_server_streaming partial stream input =
      messages_of (stream (create_async_iterable (partial input ∷ [])))

  unfoldable pub call_client_streaming :
      (P → I) → (Stream I → Outcome (StreamResponse O)) → Stream P → Outcome O
  unfolding inputs last_message
  call_client_streaming partial stream request = do
    res ← stream (inputs partial request)
    found ← last_message none res.messages
    single_or_missing found

  unfoldable pub call_bidi_streaming :
      (P → I) → (Stream I → Outcome (StreamResponse O)) → Stream P → Stream O
  unfolding inputs
  call_bidi_streaming partial stream request = messages_of (stream (inputs partial request))
