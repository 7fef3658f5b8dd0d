-- ===== src/Iterable/Inverse.antt =====
-- Pipes of transforms that take each other back.
use node_dubbo.Prelude.{◌≡◌, ◌≢◌, refl, ap, List, [], ◌∷◌, arith, All}
use node_dubbo.Error.{Outcome, ok, thrown}
use node_dubbo.Stream.{Stream, finished, raised, yields, before, yields_or_raises}
use node_dubbo.Iterable.{map_or_raise}

-- A predicate of every value of a stream that returns.
abbrev pub AllOf {ℓ κ} : {A : Type ℓ} → (A → Type κ) → Stream A → Type κ
AllOf P finished = Unit
AllOf P (raised e) = Unit
AllOf P (yields x s) = P x × AllOf P s

module _ {ℓ} {A : Type ℓ} where
  pub yields_or_raises-ne-finished :
      (o : Outcome A) (s : Stream A) → yields_or_raises o s ≢ finished
  yields_or_raises-ne-finished (ok x) s h = cc
  yields_or_raises-ne-finished (thrown e) s h = cc

  pub yields_or_raises-eq-yields :
      (o : Outcome A) (s : Stream A) (y : A) (t : Stream A)
      → yields_or_raises o s ≡ yields y t
      → (o ≡ ok y) × (s ≡ t)
  yields_or_raises-eq-yields (ok x) s y t h = ground arith
  yields_or_raises-eq-yields (thrown e) s y t h = cc

-- Every value of a stream through a function.
abbrev pub map_stream {ℓ} : {A : Type ℓ} → (A → A) → Stream A → Stream A
map_stream h finished = finished
map_stream h (raised e) = raised e
map_stream h (yields x s) = yields (h x) (map_stream h s)

pub map_stream_same {ℓ} : {A : Type ℓ} (s : Stream A) → map_stream (λ x. x) s ≡ s
map_stream_same finished = refl
map_stream_same (raised e) = refl
map_stream_same (yields x s) = ap (yields x) (map_stream_same s)

-- A pipe that returns is taken back, up to `seen`, by one that takes back each of its values.
module _ {ℓ κ μ} {A : Type ℓ} {B : Type κ} (f : A → Outcome B) (g : B → Outcome A) (P : A → Type μ)
    (Q : B → Type 0) (seen : A → A)
    (back : (x : A) (y : B) → P x → f x ≡ ok y → Q y × (g y ≡ ok (seen x))) where
  pub map_or_raise_back :
      (s : Stream A) (ys : List B)
      → AllOf P s
      → map_or_raise f s ≡ before ys finished
      → All Q ys × (map_or_raise g (before ys finished) ≡ map_stream seen s)
  unfolding map_or_raise
  map_or_raise_back finished [] p h = (tt, refl)
  map_or_raise_back finished (y ∷ ys) p h = cc
  map_or_raise_back (raised e) [] p h = cc
  map_or_raise_back (raised e) (y ∷ ys) p h = cc
  map_or_raise_back (yields x s) [] (p, ps) h =
      absurd (yields_or_raises-ne-finished (f x) (map_or_raise f s) h)
  map_or_raise_back (yields x s) (y ∷ ys) (p, ps) h =
      let (done, rest) =
        yields_or_raises-eq-yields (f x) (map_or_raise f s) y (before ys finished) h in
      let (q, undone) = back x y p done in
      let (qs, same) = map_or_raise_back s ys ps rest in
      ((q, qs), rw undone (ap (yields (seen x)) same))

module _ {ℓ κ} {A : Type ℓ} {B : Type κ} (f : A → Outcome B) where
  -- Only a source that returns makes a pipe that returns.
  pub map_or_raise-finished :
      (s : Stream A) (ys : List B)
      → map_or_raise f s ≡ before ys finished
      → (xs : List A) × (s ≡ before xs finished)
  unfolding map_or_raise
  map_or_raise-finished finished ys h = ([], refl)
  map_or_raise-finished (raised e) [] h = cc
  map_or_raise-finished (raised e) (y ∷ ys) h = cc
  map_or_raise-finished (yields x s) [] h =
      absurd (yields_or_raises-ne-finished (f x) (map_or_raise f s) h)
  map_or_raise-finished (yields x s) (y ∷ ys) h =
      let (_, rest) =
        yields_or_raises-eq-yields (f x) (map_or_raise f s) y (before ys finished) h in
      let (xs, same) = map_or_raise-finished s ys rest in (x ∷ xs, ap (λ t. yields x t) same)

pub AllOf-before {ℓ κ} :
    {A : Type ℓ} (P : A → Type κ) (xs : List A) → All P xs → AllOf P (before xs finished)
AllOf-before P [] h = tt
AllOf-before P (x ∷ xs) (p, h) = (p, AllOf-before P xs h)
