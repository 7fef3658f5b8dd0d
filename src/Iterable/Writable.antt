-- ===== src/Iterable/Writable.antt =====
-- packages/dubbo/src/protocol/async-iterable.ts: createWritableIterable. A call returns a promise,
-- which the number of calls before names; what settles promises is recorded, the first one in
-- front. Errors are told apart by their texts.
pub mod Order
pub mod Steps
pub mod Delivery
use node_dubbo.Prelude.{
  ℕ, ◌+◌, Bool, true, false, String, List, [], ◌∷◌, ◌++◌, Option, none, some, if◌then◌else◌,
}

-- `IteratorResult`: a value, or the end.
pub data Result (A : Type 0) : Type 0 where
  value : A → Result A
  done : Result A

pub data Settled (A : Type 0) : Type 0 where
  resolved : Settled A
  read : Result A → Settled A
  rejected : String → Settled A

-- `queue` has each payload with the promise of its writer, `reader` is the promise of a reader
-- that waits (`queueResolve`).
pub record Writable (A : Type 0) : Type 0 where
  pub queue : List (Result A × ℕ)
  pub reader : Option ℕ
  pub error : Option String
  pub closed : Bool
  pub calls : ℕ
  pub settled : List (ℕ × Settled A)

pub data Call (A : Type 0) : Type 0 where
  write : A → Call A
  close : Call A
  next : Call A
  throw : String → Call A

module _ {A : Type 0} where
  unfoldable pub create_writable_iterable : Writable A
  create_writable_iterable = record {
    queue = [];
    reader = none;
    error = none;
    closed = false;
    calls = 0;
    settled = [];
  }

  unfoldable pub settle : ℕ → Settled A → Writable A → Writable A
  settle promise how w = record w { settled = w.settled ++ ((promise, how) ∷ []) }

  -- A waiting reader gets the payload, and no reader waits then; otherwise it is queued.
  unfoldable pub hand_over : Result A → ℕ → Writable A → Option ℕ → Writable A
  hand_over payload promise w (some r) =
      settle promise resolved (settle r (read payload) (record w { reader = none }))
  hand_over payload promise w none = record w { queue = w.queue ++ ((payload, promise) ∷ []) }

  unfoldable pub process_in : Result A → ℕ → Writable A → Option String → Writable A
  process_in payload promise w (some e) = settle promise (rejected e) w
  process_in payload promise w none = hand_over payload promise w w.reader

  unfoldable pub process : Result A → ℕ → Writable A → Writable A
  process payload promise w = process_in payload promise w w.error

  unfoldable pub on_write : A → ℕ → Writable A → Writable A
  on_write x promise w =
      if w.closed
      then settle promise (rejected "cannot write, already closed") w
      else process (value x) promise w

  unfoldable pub on_close : ℕ → Writable A → Writable A
  on_close promise w =
      if w.closed
      then settle promise (rejected "cannot close, already closed") w
      else process done promise (record w { closed = true })

  -- The first payload is read and its writer's promise resolved, or the reader waits, in place of
  -- one that waited already.
  unfoldable pub take_first : ℕ → Writable A → List (Result A × ℕ) → Writable A
  take_first promise w [] = record w { reader = some promise }
  take_first promise w ((payload, writer) ∷ queue) =
      settle promise (read payload) (settle writer resolved (record w { queue = queue }))

  unfoldable pub next_in : ℕ → Writable A → Option String → Writable A
  next_in promise w (some e) = settle promise (rejected e) w
  next_in promise w none = take_first promise w w.queue

  unfoldable pub on_next : ℕ → Writable A → Writable A
  on_next promise w = next_in promise w w.error

  pub reject_all : String → List (Result A × ℕ) → Writable A → Writable A
  reject_all e [] w = w
  reject_all e ((payload, writer) ∷ queue) w = reject_all e queue (settle writer (rejected e) w)

  pub on_throw : String → ℕ → Writable A → Writable A
  on_throw e promise w =
      settle promise (read done)
        (record (reject_all e w.queue (record w { error = some e })) { queue = [] })

  unfoldable pub call : Call A → ℕ → Writable A → Writable A
  call (write x) promise w = on_write x promise w
  call close promise w = on_close promise w
  call next promise w = on_next promise w
  call (throw e) promise w = on_throw e promise w

  -- A call and its promise.
  unfoldable pub step : Call A → Writable A → Writable A
  step c w = call c w.calls (record w { calls = w.calls + 1 })

  pub run : Writable A → List (Call A) → Writable A
  run w [] = w
  run w (c ∷ cs) = run (step c w) cs
