-- ===== src/Invoke/Kinds.antt =====
-- How many input messages a call takes.
use node_dubbo.Prelude.{◌≡◌, ◌↔◌, refl, sym, ap, String, arith, none}
use mathlib.Core.Option.{none-ne-some}
use node_dubbo.Error.{Outcome, ok, thrown, ◌>>=◌}
use node_dubbo.Stream.{Stream, finished, raised, yields, ending, yields_or_raises}
use node_dubbo.Iterable.{map_or_raise}
use node_dubbo.Invoke.{
  unary, server_streaming, no_more, then_stream, transform_invoke_implementation,
}

ending-no_more {ℓ κ} :
    {I : Type ℓ} (O : Type κ) (kind : String) (rest : Stream I)
    → (ending {A = O} (no_more kind rest) ≡ none) ↔ (rest ≡ finished)
ending-no_more O kind finished = (λ _. refl, λ _. refl)
ending-no_more O kind (raised e) = (λ h. absurd (none-ne-some e (sym h)), λ h. cc)
ending-no_more O kind (yields x s) = (λ h. absurd (none-ne-some _ (sym h)), λ h. cc)

ending-then_stream {ℓ} :
    {O : Type ℓ} (s t : Stream O)
    → (ending (then_stream s t) ≡ none) ↔ ((ending s ≡ none) × (ending t ≡ none))
ending-then_stream finished t = (λ h. (refl, h), λ h. h.1)
ending-then_stream (raised e) t = (λ h. absurd (none-ne-some e (sym h)), λ h. h.0)
ending-then_stream (yields x s) t = ending-then_stream s t

ending-yields_or_raises {ℓ} :
    {O : Type ℓ} (o : Outcome O) (s : Stream O)
    → (ending (yields_or_raises o s) ≡ none) ↔ (((y : O) × (o ≡ ok y)) × (ending s ≡ none))
ending-yields_or_raises (ok y) s = (λ h. ((y, refl), h), λ h. h.1)
ending-yields_or_raises (thrown e) s = (λ h. absurd (none-ne-some e (sym h)), λ ((y, h), _). cc)

yields_injective {ℓ} :
    {A : Type ℓ} (x y : A) (s t : Stream A) → yields x s ≡ yields y t → (x ≡ y) × (s ≡ t)
yields_injective x y s t h = ground arith

module _ {ℓ κ μ} {I : Type ℓ} {R : Type κ} {O : Type μ} (normalize : R → Outcome O) where
  -- The messages of a call of a unary method end without an error exactly if there is one input
  -- message and no other, and the implementation and the normalization of its output return.
  ending-unary_iff :
      (impl : I → Outcome R) (input : Stream I)
      → (ending (transform_invoke_implementation normalize (unary impl) input) ≡ none)
        ↔ ((x : I) × (input ≡ yields x finished) × ((o : O) × ((impl x >>= normalize) ≡ ok o)))
  unfolding transform_invoke_implementation
  ending-unary_iff impl finished = (λ h. absurd (none-ne-some _ (sym h)), λ (x, same, _). cc)
  ending-unary_iff impl (raised e) = (λ h. absurd (none-ne-some _ (sym h)), λ (x, same, _). cc)
  ending-unary_iff impl (yields x rest) = (
    (λ h.
        let (returned, rest_ends) = (ending-yields_or_raises (impl x >>= normalize) _).0 h in
        (x, ap (yields x) ((ending-no_more O "unary" rest).0 rest_ends), returned)),
    (λ (y, same, returned).
        let (x_same, rest_same) = yields_injective x y rest finished same in
        (ending-yields_or_raises (impl x >>= normalize) _).1
          (rw x_same returned, (ending-no_more O "unary" rest).1 rest_same)),
  )

  -- The messages of a call of a server-streaming method end without an error exactly if there is
  -- one input message and no other, and the outputs for it end without an error, normalized.
  ending-server_streaming_iff :
      (impl : I → Stream R) (input : Stream I)
      → (ending (transform_invoke_implementation normalize (server_streaming impl) input) ≡ none)
        ↔ ((x : I) × (input ≡ yields x finished)
            × (ending (map_or_raise normalize (impl x)) ≡ none))
  unfolding transform_invoke_implementation
  ending-server_streaming_iff impl finished =
      (λ h. absurd (none-ne-some _ (sym h)), λ (x, same, _). cc)
  ending-server_streaming_iff impl (raised e) =
      (λ h. absurd (none-ne-some _ (sym h)), λ (x, same, _). cc)
  ending-server_streaming_iff impl (yields x rest) = (
    (λ h.
        let (outputs_end, rest_ends) =
          (ending-then_stream (map_or_raise normalize (impl x)) _).0 h in
        (x, ap (yields x) ((ending-no_more O "server-streaming" rest).0 rest_ends), outputs_end)),
    (λ (y, same, outputs_end).
        let (x_same, rest_same) = yields_injective x y rest finished same in
        (ending-then_stream (map_or_raise normalize (impl x)) _).1
          (rw x_same outputs_end, (ending-no_more O "server-streaming" rest).1 rest_same)),
  )
