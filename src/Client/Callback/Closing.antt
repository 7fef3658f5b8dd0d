-- ===== src/Client/Callback/Closing.antt =====
-- How often a callback client calls `onClose`.
use node_dubbo.Prelude.{
  ℕ, ◌+◌, ◌≡◌, refl, ◌∙◌, Bool, List, [], ◌∷◌, ◌++◌, Option, none, some, arith, Bool-cases, inl,
  inr,
}
use node_dubbo.Error.{Code, Reason, DubboError, Outcome, ok, thrown, from}
use node_dubbo.Stream.{Stream, finished, raised, yields}
use node_dubbo.Client.{StreamResponse}
use node_dubbo.Client.Callback.{
  Called, header, trailer, response, closed, answered, Log, made, then_call, is_discarded,
  read_messages, run_stream, close_with, catch_run, server_streaming_calls,
}

module _ {ℓ} {O : Type ℓ} where
  -- The calls of `onClose`.
  unfoldable pub closes : List (Called O) → ℕ
  closes [] = 0
  closes (closed e ∷ calls) = closes calls + 1
  closes (header h ∷ calls) = closes calls
  closes (trailer h ∷ calls) = closes calls
  closes (response value ∷ calls) = closes calls
  closes (answered e value ∷ calls) = closes calls

  closes-append : (xs ys : List (Called O)) → closes (xs ++ ys) ≡ closes xs + closes ys
  unfolding closes
  closes-append [] ys = omega arith
  closes-append (closed e ∷ xs) ys = omega (arith, closes-append xs ys)
  closes-append (header h ∷ xs) ys = closes-append xs ys
  closes-append (trailer h ∷ xs) ys = closes-append xs ys
  closes-append (response value ∷ xs) ys = closes-append xs ys
  closes-append (answered e value ∷ xs) ys = closes-append xs ys

  module _ (throws : Called O → Option Reason) where
    -- A log whose calls of `onClose` and whose end fit: closed and done, or not closed and thrown.
    abbrev Fit : Log O → Type 0
    Fit (calls, none) = closes calls ≡ 1
    Fit (calls, some e) = closes calls ≡ 0

    made-Fit :
        (c : Called O) (o : Option Reason) (next : Log O)
        → closes (c ∷ []) ≡ 0
        → ((xs : List (Called O)) → closes (c ∷ xs) ≡ closes xs)
        → Fit next
        → Fit (made throws c next o)
    made-Fit c none (calls, none) quiet skips fit = skips calls ∙ fit
    made-Fit c none (calls, some e) quiet skips fit = skips calls ∙ fit
    made-Fit c (some e) next quiet skips fit = quiet

    read_messages-Fit : (s : Stream O) (next : Log O) → Fit next → Fit (read_messages throws s next)
    unfolding read_messages then_call closes
    read_messages-Fit finished next fit = fit
    read_messages-Fit (raised e) next fit = refl
    read_messages-Fit (yields value s) next fit =
        made-Fit (response value) (throws (response value)) (read_messages throws s next) refl
          (λ xs. refl) (read_messages-Fit s next fit)

    run_stream-Fit :
        (res : Outcome (StreamResponse O))
        → throws (closed none) ≡ none
        → Fit (run_stream throws res)
    unfolding run_stream then_call closes
    run_stream-Fit (thrown e) calm = refl
    run_stream-Fit (ok res) calm =
        made-Fit (header res.header) (throws (header res.header)) _ refl (λ xs. refl)
          (read_messages-Fit res.messages _ (
            made-Fit (trailer res.trailer) (throws (trailer res.trailer)) _ refl (λ xs. refl)
              (rw calm refl)))

    closes-close_with :
        (cancelled : Bool) (e : DubboError) → closes (close_with {O = O} cancelled e ∷ []) ≡ 1
    unfolding close_with closes
    closes-close_with cancelled e = elim (Bool-cases (is_discarded cancelled e)) [
      | inl quiet ↦ rw quiet refl
      | inr loud ↦ rw loud refl
    ]

    catch_run-Fit :
        (cancelled : Bool) (log : Log O) → Fit log → closes (catch_run throws cancelled log) ≡ 1
    unfolding catch_run
    catch_run-Fit cancelled (calls, none) fit = fit
    catch_run-Fit cancelled (calls, some e) fit = omega (
      arith,
      closes-append calls (close_with cancelled (from e Code.internal) ∷ []),
      closes-close_with cancelled (from e Code.internal),
      fit,
    )

    -- A callback client calls the close callback of a server-streaming method exactly once,
    -- whatever the transport, the messages and the other functions of the caller throw, and
    -- whether the call is cancelled or not, if the callback does not throw when it is called
    -- without an error.
    pub closes-server_streaming_calls :
        (cancelled : Bool) (res : Outcome (StreamResponse O))
        → throws (closed none) ≡ none
        → closes (server_streaming_calls throws cancelled res) ≡ 1
    unfolding server_streaming_calls
    closes-server_streaming_calls cancelled res calm =
        catch_run-Fit cancelled (run_stream throws res) (run_stream-Fit res calm)
