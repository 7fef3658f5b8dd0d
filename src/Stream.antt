-- ===== src/Stream.antt =====
-- An `AsyncIterable` as the sources consume it: the values that it yields, and how it ends, by
-- returning or by throwing. A transform is a function of streams. What is lost in this view is
-- when a value is produced, and a consumer that stops early.
use node_dubbo.Prelude.{◌≡◌, refl, List, [], ◌∷◌, ◌++◌, Option, none, some}
use node_dubbo.Error.{Reason, Outcome, ok, thrown}

pub data Stream {ℓ} (A : Type ℓ) : Type ℓ where
  finished : Stream A
  raised : Reason → Stream A
  yields : A → Stream A → Stream A

module _ {ℓ} {A : Type ℓ} where
  -- The values of a list, then the ending of another stream.
  abbrev pub before : List A → Stream A → Stream A
  before [] s = s
  before (x ∷ xs) s = yields x (before xs s)

  -- `createAsyncIterable`.
  unfoldable pub create_async_iterable : List A → Stream A
  create_async_iterable items = before items finished

  -- What a stream yields, up to its ending.
  abbrev pub values : Stream A → List A
  values finished = []
  values (raised e) = []
  values (yields x s) = x ∷ values s

  abbrev pub ending : Stream A → Option Reason
  ending finished = none
  ending (raised e) = some e
  ending (yields x s) = ending s

  -- `sinkAll`.
  unfoldable pub sink_all : Stream A → Outcome (List A)
  sink_all finished = ok []
  sink_all (raised e) = thrown e
  sink_all (yields x s) = elim (sink_all s) [ ok xs ↦ ok (x ∷ xs) | thrown e ↦ thrown e ]

  -- `yield` of what may throw instead, and then the rest.
  abbrev pub yields_or_raises : Outcome A → Stream A → Stream A
  yields_or_raises (ok x) s = yields x s
  yields_or_raises (thrown e) s = raised e

  pub before-append :
      (xs ys : List A) (s : Stream A) → before (xs ++ ys) s ≡ before xs (before ys s)
  before-append [] ys s = refl
  before-append (x ∷ xs) ys s = λ i. yields x (before-append xs ys s i)
