-- ===== src/Invoke.antt =====
-- packages/dubbo/src/protocol/invoke-implementation.ts: calls of the implementation of a method,
-- by the method's kind.
pub mod Kinds
use node_dubbo.Prelude.{◌≡◌, refl, String, Option, none, some, List, [], ◌∷◌, ◌+++◌}
use node_dubbo.Error.{Code, Outcome, ok, thrown, error, dubbo, raise, ◌>>=◌}
use node_dubbo.Headers.{Headers}
use node_dubbo.Stream.{Stream, finished, raised, yields, yields_or_raises}
use node_dubbo.Iterable.{map_or_raise}

-- `MethodImplSpec`: the implementation is the user's code, with input messages `I` and output
-- `R`, which may be a partial message.
pub data MethodImpl {ℓ κ} (I : Type ℓ) (R : Type κ) : Type (ℓ ⊔ κ) where
  unary : (I → Outcome R) → MethodImpl I R
  server_streaming : (I → Stream R) → MethodImpl I R
  client_streaming : (Stream I → Outcome R) → MethodImpl I R
  bidi_streaming : (Stream I → Stream R) → MethodImpl I R

-- What the user's code does by its context (`HandlerContext`): to the header of the response before
-- its first output, and to its trailer.
pub record Effects : Type 0 where
  pub to_header : Headers → Headers
  pub to_trailer : Headers → Headers

abbrev pub no_effects : Effects
no_effects = record { to_header = λ h. h; to_trailer = λ t. t }

abbrev pub effects_if_called {ℓ} : {I : Type ℓ} → (Stream I → Effects) → Stream I → Effects
effects_if_called effects finished = no_effects
effects_if_called effects (raised e) = no_effects
effects_if_called effects (yields x s) = effects (yields x s)

-- An implementation that takes one message is called when there is one; one that takes the stream
-- of messages is called at once.
unfoldable pub effects_on {ℓ κ} :
    {I : Type ℓ} {R : Type κ} → MethodImpl I R → (Stream I → Effects) → Stream I → Effects
effects_on (unary f) effects input = effects_if_called effects input
effects_on (server_streaming f) effects input = effects_if_called effects input
effects_on (client_streaming f) effects input = effects input
effects_on (bidi_streaming f) effects input = effects input

-- What is left of the input once the message of the call has been taken: nothing, or an error.
abbrev pub no_more {ℓ κ} : {I : Type ℓ} {O : Type κ} → String → Stream I → Stream O
no_more kind finished = finished
no_more kind (raised e) = raised e
no_more kind (yields x s) = raised (
    dubbo (
      error ("protocol error: received extra input message for " +++ (kind +++ " method"))
        Code.invalid_argument))

-- One stream, and another one when it returns.
abbrev pub then_stream {ℓ} : {A : Type ℓ} → Stream A → Stream A → Stream A
then_stream finished t = t
then_stream (raised e) t = raised e
then_stream (yields x s) t = yields x (then_stream s t)

abbrev pub first_input {ℓ κ} :
    {I : Type ℓ} {O : Type κ} → String → Stream I → (I → Stream I → Stream O) → Stream O
first_input kind finished k = raised (
    dubbo (
      error ("protocol error: missing input message for " +++ (kind +++ " method"))
        Code.invalid_argument))
first_input kind (raised e) k = raised e
first_input kind (yields x s) k = k x s

-- `construct` is `message instanceof Message ? message : new spec.method.O(message)`, of
-- @bufbuild/protobuf: `none` stands for what it throws.
unfoldable pub normalize_output {ℓ κ} :
    {R : Type ℓ} {O : Type κ} → String → (R → Option O) → R → Outcome O
normalize_output type_name construct message = elim (construct message) [
  | some o ↦ ok o
  | none ↦ raise ("failed to normalize message " +++ type_name) Code.internal
]

module _ {ℓ κ μ} {I : Type ℓ} {R : Type κ} {O : Type μ} (normalize : R → Outcome O) where
  unfoldable pub invoke_unary_implementation : (I → Outcome R) → I → Outcome O
  invoke_unary_implementation impl input = impl input >>= normalize

  unfoldable pub transform_invoke_implementation : MethodImpl I R → Stream I → Stream O
  transform_invoke_implementation (unary impl) input =
      first_input "unary" input
        (λ x rest. yields_or_raises (impl x >>= normalize) (no_more "unary" rest))
  transform_invoke_implementation (server_streaming impl) input =
      first_input "server-streaming" input
        (λ x rest. then_stream (map_or_raise normalize (impl x)) (no_more "server-streaming" rest))
  transform_invoke_implementation (client_streaming impl) input =
      yields_or_raises (impl input >>= normalize) finished
  transform_invoke_implementation (bidi_streaming impl) input = map_or_raise normalize (impl input)
