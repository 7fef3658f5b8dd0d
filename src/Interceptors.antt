-- ===== src/Interceptors.antt =====
-- packages/dubbo/src/protocol/run-call.ts, applyInterceptors: a call wrapped by interceptors, which
-- are functions from calls to calls.
use node_dubbo.Prelude.{◌≡◌, refl, ap, ◌∙◌, List, [], ◌∷◌, ◌++◌, Option, none, some}

module _ {ℓ} {F : Type ℓ} where
  -- `interceptors.concat().reverse()`, and `reduce((n, i) => i(n), next)`.
  reversed : List (F → F) → List (F → F)
  reversed [] = []
  reversed (i ∷ is) = reversed is ++ (i ∷ [])

  reduce : List (F → F) → F → F
  reduce [] next = next
  reduce (i ∷ is) next = reduce is (i next)

  unfoldable pub apply_interceptors : F → Option (List (F → F)) → F
  unfolding reversed reduce
  apply_interceptors next none = next
  apply_interceptors next (some interceptors) = reduce (reversed interceptors) next

  -- Each interceptor around those behind it.
  abbrev pub nested : List (F → F) → F → F
  nested [] next = next
  nested (i ∷ is) next = i (nested is next)

  reduce-append :
      (is js : List (F → F)) (next : F) → reduce (is ++ js) next ≡ reduce js (reduce is next)
  unfolding reduce
  reduce-append [] js next = refl
  reduce-append (i ∷ is) js next = reduce-append is js (i next)

  reduce-reversed : (is : List (F → F)) (next : F) → reduce (reversed is) next ≡ nested is next
  unfolding reduce reversed
  reduce-reversed [] next = refl
  reduce-reversed (i ∷ is) next =
      reduce-append (reversed is) (i ∷ []) next ∙ ap i (reduce-reversed is next)

  -- The first interceptor is the outermost: applyInterceptors puts each interceptor around those
  -- behind it in the list, and the last one around the call.
  apply_interceptors-nested :
      (next : F) (is : List (F → F)) → apply_interceptors next (some is) ≡ nested is next
  unfolding apply_interceptors
  apply_interceptors-nested next is = reduce-reversed is next
