-- ===== src/Client/Callback.antt =====
-- packages/dubbo/src/callback-client.ts. The functions of the caller are called one after another
-- and may throw; `cancelled` is if the call is aborted when its end is looked at.
pub mod Closing
use node_dubbo.Prelude.{Bool, ◌&&◌, List, [], ◌∷◌, ◌++◌, Option, none, some, ◌==◌, if◌then◌else◌}
use node_dubbo.Headers.{Headers}
use node_dubbo.Error.{Code, code_number, Reason, DubboError, Outcome, ok, thrown, from}
use node_dubbo.Stream.{Stream, finished, raised, yields}
use node_dubbo.Client.{Response, StreamResponse}

-- The calls of `onHeader`, `onTrailer`, `onResponse` and `onClose`, and of the callback of a unary
-- method: with an error its message is a new one, `new method.O()`.
pub data Called {ℓ} (O : Type ℓ) : Type ℓ where
  header : Headers → Called O
  trailer : Headers → Called O
  response : O → Called O
  closed : Option DubboError → Called O
  answered : Option DubboError → O → Called O

-- What was called so far, and what was thrown.
abbrev pub Log {ℓ} : Type ℓ → Type ℓ
Log O = List (Called O) × Option Reason

-- `err.code === Code.Canceled && abort.signal.aborted`.
unfoldable pub is_discarded : Bool → DubboError → Bool
is_discarded cancelled e = code_number e.code == code_number Code.canceled && cancelled

unfoldable pub close_with {ℓ} : {O : Type ℓ} → Bool → DubboError → Called O
unfolding is_discarded
close_with cancelled e = if is_discarded cancelled e then closed none else closed (some e)

module _ {ℓ} {O : Type ℓ} (throws : Called O → Option Reason) where
  -- A call of the caller's function, and what comes next if it does not throw.
  abbrev pub made : Called O → Log O → Option Reason → Log O
  made c (calls, end) none = (c ∷ calls, end)
  made c next (some e) = (c ∷ [], some e)

  unfoldable pub then_call : Called O → Log O → Log O
  then_call c next = made c next (throws c)

  abbrev pub nothing : Log O
  nothing = ([], none)

  unfoldable pub unary_calls : O → Bool → Outcome (Response O) → Log O
  unfolding then_call is_discarded
  unary_calls empty cancelled (ok res) =
      then_call (header res.header)
        (then_call (trailer res.trailer) (then_call (answered none res.message) nothing))
  unary_calls empty cancelled (thrown reason) =
      let e = from reason Code.internal in
      if is_discarded cancelled e then nothing else then_call (answered (some e) empty) nothing

  -- `for await`, and what comes behind it.
  unfoldable pub read_messages : Stream O → Log O → Log O
  unfolding then_call
  read_messages finished next = next
  read_messages (raised e) next = ([], some e)
  read_messages (yields value s) next = then_call (response value) (read_messages s next)

  -- `run` of createServerStreamingFn.
  unfoldable pub run_stream : Outcome (StreamResponse O) → Log O
  unfolding then_call read_messages
  run_stream (thrown e) = ([], some e)
  run_stream (ok res) = then_call (header res.header) (
      read_messages res.messages
        (then_call (trailer res.trailer) (then_call (closed none) nothing)))

  -- The `catch` behind it.
  unfoldable pub catch_run : Bool → Log O → List (Called O)
  unfolding close_with
  catch_run cancelled (calls, none) = calls
  catch_run cancelled (calls, some reason) =
      calls ++ (close_with cancelled (from reason Code.internal) ∷ [])

  unfoldable pub server_streaming_calls : Bool → Outcome (StreamResponse O) → List (Called O)
  unfolding run_stream catch_run
  server_streaming_calls cancelled res = catch_run cancelled (run_stream res)
