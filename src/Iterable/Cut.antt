-- ===== src/Iterable/Cut.antt =====
-- Loops over a stream as one loop, and where it stops.
use node_dubbo.Prelude.{◌≡◌, refl, ap, ◌∙◌, List, [], ◌∷◌, Option, none, some}
use node_dubbo.Error.{Reason, Outcome, ok, thrown, ◌>>=◌}
use node_dubbo.Stream.{Stream, finished, raised, yields, before, yields_or_raises}
use node_dubbo.Iterable.{map_or_raise}

module _ {ℓ κ μ} {A : Type ℓ} {B : Type κ} {C : Type μ} (f : A → Outcome B)
    (g : B → Outcome C) where
  fused_step :
      (o : Outcome B) (s : Stream B)
      → map_or_raise g (yields_or_raises o s) ≡ yields_or_raises (o >>= g) (map_or_raise g s)
  unfolding map_or_raise
  fused_step (ok b) s = refl
  fused_step (thrown e) s = refl

  -- One loop for two.
  pub map_or_raise-map_or_raise :
      (s : Stream A) → map_or_raise g (map_or_raise f s) ≡ map_or_raise (λ x. f x >>= g) s
  unfolding map_or_raise
  map_or_raise-map_or_raise finished = refl
  map_or_raise-map_or_raise (raised e) = refl
  map_or_raise-map_or_raise (yields x s) =
      fused_step (f x) (map_or_raise f s)
      ∙ ap (yields_or_raises (f x >>= g)) (map_or_raise-map_or_raise s)

-- An ending: a return, or a throw.
abbrev pub ends {ℓ} : {A : Type ℓ} → Option Reason → Stream A
ends none = finished
ends (some e) = raised e

module _ {ℓ κ} {A : Type ℓ} {B : Type κ} (f : A → Outcome B) where
  abbrev pub cut : A → Outcome B → List A × Option Reason → List A × Option Reason
  cut x (ok y) (xs, e) = (x ∷ xs, e)
  cut x (thrown e) r = ([], some e)

  -- The values of a stream up to the first one on which `f` throws, and how that ends.
  abbrev pub written : Stream A → List A × Option Reason
  written finished = ([], none)
  written (raised e) = ([], some e)
  written (yields x s) = cut x (f x) (written s)

  abbrev pub Passed : Stream A → Type κ
  Passed s =
      (ys : List B) × ((map_or_raise f s ≡ before ys (ends (written s).1))
        × (map_or_raise f (before (written s).0 finished) ≡ before ys finished))

  pass_step :
      (x : A) (o : Outcome B) (s : Stream A)
      → f x ≡ o
      → Passed s
      → (ys : List B) × ((yields_or_raises o (map_or_raise f s)
            ≡ before ys (ends (cut x o (written s)).1))
          × (map_or_raise f (before (cut x o (written s)).0 finished) ≡ before ys finished))
  unfolding map_or_raise
  pass_step x (ok y) s h (ys, (all, kept)) =
      (y ∷ ys, (ap (yields y) all, rw h (ap (yields y) kept)))
  pass_step x (thrown e) s h p = ([], (refl, refl))

  pub passed : (s : Stream A) → Passed s
  unfolding map_or_raise
  passed finished = ([], (refl, refl))
  passed (raised e) = ([], (refl, refl))
  passed (yields x s) = pass_step x (f x) s refl (passed s)
