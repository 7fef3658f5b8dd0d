-- ===== src/Node/Reasons/Chain.antt =====
-- unwrapNodeErrorChain of node-error.ts comes to an end, also where causes are in a cycle.
use node_dubbo.Prelude.{
  ℕ, zero, suc, ◌+◌, ◌≤◌, ◌<◌, ◌≡◌, refl, true, false, ◌||◌, List, [], ◌∷◌, ◌++◌, Option, none,
  some, length, length-append, arith, ◌==◌, if◌then◌else◌, Bool-cases, Option-cases, inl, inr,
}
use node_dubbo.Node.Reasons.{
  Thrown, error_at, value, NodeError, Store, error_in, includes, push_error, unwrap_from,
  unwrap_node_error_chain,
}

-- How many places below `k` are not in the chain.
unseen : ℕ → List ℕ → ℕ
unseen zero chain = 0
unseen (suc k) chain = (if includes chain k then 0 else 1) + unseen k chain

includes-push :
    (chain : List ℕ) (m n : ℕ) → includes (chain ++ (m ∷ [])) n ≡ (includes chain n || m == n)
unfolding includes
includes-push [] m n = ground arith
includes-push (c ∷ chain) m n = ground (arith, includes-push chain m n)

unseen-push_le : (k : ℕ) (chain : List ℕ) (m : ℕ) → unseen k (chain ++ (m ∷ [])) ≤ unseen k chain
unfolding unseen
unseen-push_le zero chain m = omega arith
unseen-push_le (suc k) chain m = ground (arith, includes-push chain m k, unseen-push_le k chain m)

unseen-push :
    (k : ℕ) (chain : List ℕ) (m : ℕ)
    → includes chain m ≡ false
    → m < k
    → unseen k (chain ++ (m ∷ [])) < unseen k chain
unfolding unseen
unseen-push zero chain m new h = absurd (omega arith)
unseen-push (suc k) chain m new h =
    ground (arith, includes-push chain m k, unseen-push_le k chain m, unseen-push k chain m)

unseen-le : (k : ℕ) (chain : List ℕ) → unseen k chain ≤ k
unfolding unseen
unseen-le zero chain = omega arith
unseen-le (suc k) chain = ground (arith, unseen-le k chain)

error_in-bound :
    (store : Store) (n : ℕ) (e : NodeError) → error_in store n ≡ some e → n < length store
unfolding error_in
error_in-bound [] n e h = cc
error_in-bound (x ∷ store) zero e h = omega arith
error_in-bound (x ∷ store) (suc n) e h = omega (arith, error_in-bound store n e h)

-- One round, of an error that is there.
unwrap_from-error :
    (f : ℕ) (store : Store) (n : ℕ) (chain : List ℕ) (e : NodeError)
    → includes chain n ≡ false
    → error_in store n ≡ some e
    → unwrap_from (suc f) store (error_at n) chain
      ≡ push_error (λ cause c. unwrap_from f store cause c) chain n (some e)
unfolding unwrap_from
unwrap_from-error f store n chain e new found = rw (new, found) refl

unwrap_from-included :
    (f : ℕ) (store : Store) (n : ℕ) (chain : List ℕ)
    → includes chain n ≡ true
    → unwrap_from (suc f) store (error_at n) chain ≡ chain
unfolding unwrap_from
unwrap_from-included f store n chain old = rw old refl

unwrap_from-dangling :
    (f : ℕ) (store : Store) (n : ℕ) (chain : List ℕ)
    → error_in store n ≡ none
    → unwrap_from (suc f) store (error_at n) chain ≡ chain
unfolding unwrap_from push_error
unwrap_from-dangling f store n chain lost = rw lost (ground arith)

-- Fuel for the places that are not in the chain is enough, and the chain grows by them at most.
abbrev Ends : ℕ → ℕ → Store → Thrown → List ℕ → Type 0
Ends f g store reason chain =
    (unwrap_from f store reason chain ≡ unwrap_from g store reason chain)
    × (length (unwrap_from f store reason chain) ≤ length chain + unseen (length store) chain)

pushed :
    (f g : ℕ) (store : Store) (n : ℕ) (chain : List ℕ) (o : Option Thrown)
    → unseen (length store) (chain ++ (n ∷ [])) < unseen (length store) chain
    → ((cause : Thrown) → Ends f g store cause (chain ++ (n ∷ [])))
    → (e : NodeError) → e.cause ≡ o
    → (push_error (λ cause c. unwrap_from f store cause c) chain n (some e)
        ≡ push_error (λ cause c. unwrap_from g store cause c) chain n (some e))
      × (length (push_error (λ cause c. unwrap_from f store cause c) chain n (some e))
          ≤ length chain + unseen (length store) chain)
unfolding push_error
pushed f g store n chain none fewer again e h =
    rw h (refl, omega (arith, length-append chain (n ∷ [])))
pushed f g store n chain (some cause) fewer again e h =
    rw h ((again cause).0, omega (arith, (again cause).1, length-append chain (n ∷ [])))

unwrap_from-Ends :
    (f g : ℕ) (store : Store) (reason : Thrown) (chain : List ℕ)
    → unseen (length store) chain < f
    → unseen (length store) chain < g
    → Ends f g store reason chain
unwrap_from-Ends zero g store reason chain hf hg = absurd (omega arith)
unwrap_from-Ends (suc f) zero store reason chain hf hg = absurd (omega arith)
unwrap_from-Ends (suc f) (suc g) store (value r) chain hf hg =
    unfold unwrap_from in (refl, omega arith)
unwrap_from-Ends (suc f) (suc g) store (error_at n) chain hf hg =
    elim (Bool-cases (includes chain n)) [
      | inl old ↦
          rw (unwrap_from-included f store n chain old, unwrap_from-included g store n chain old)
            (refl, omega arith)
      | inr new ↦ elim (Option-cases (error_in store n)) [
        | inl lost ↦
            rw
              (unwrap_from-dangling f store n chain lost, unwrap_from-dangling g store n chain lost)
              (refl, omega arith)
        | inr (e, found) ↦
            let fewer = unseen-push (length store) chain n new (error_in-bound store n e found) in
            rw
              (
                unwrap_from-error f store n chain e new found,
                unwrap_from-error g store n chain e new found,
              )
              (pushed f g store n chain e.cause fewer
                (λ cause.
                  unwrap_from-Ends f g store cause (chain ++ (n ∷ [])) (omega (arith, fewer))
                    (omega (arith, fewer)))
                e refl)
      ]
    ]

-- The loop of unwrapNodeErrorChain comes to an end for every store of errors, also if causes are
-- in a cycle: any two numbers of rounds above the number of errors give the same chain, and the
-- chain is at most as long as there are errors.
pub unwrap_node_error_chain-fuel :
    (f g : ℕ) (store : Store) (reason : Thrown)
    → length store < f
    → length store < g
    → (unwrap_node_error_chain f store reason ≡ unwrap_node_error_chain g store reason)
      × (length (unwrap_node_error_chain f store reason) ≤ length store)
unfolding unwrap_node_error_chain
unwrap_node_error_chain-fuel f g store reason hf hg =
    let below = unseen-le (length store) [] in
    let (same, short) =
      unwrap_from-Ends f g store reason [] (omega (arith, below)) (omega (arith, below)) in
    (same, omega (arith, short, below))
