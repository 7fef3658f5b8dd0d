-- ===== src/Iterable/Split/Chunks.antt =====
-- transformSplitEnvelope reads the same messages from the same bytes, however they are cut.
use node_dubbo.Prelude.{ℕ, ◌≡◌, refl, sym, ap, ◌∙◌, List, [], ◌∷◌, ◌++◌, append_assoc, append-nil}
use node_dubbo.ByteArray.{Bytes}
use node_dubbo.Stream.{Stream, yields, before}
use node_dubbo.Iterable.Split.{drain_all, split_from, transform_split_envelope}
use node_dubbo.Iterable.Split.Progress.{continue-drain_all_append}

split_from-join :
    (max : ℕ) (b c d : Bytes) (s : Stream Bytes)
    → split_from max b (yields c (yields d s)) ≡ split_from max b (yields (c ++ d) s)
unfolding split_from
split_from-join max b c d s = sym (
    rw (← append_assoc b c d)
      (continue-drain_all_append max (b ++ c) d (λ rest. split_from max rest s)))

abbrev pub joined : List Bytes → Bytes
joined [] = []
joined (c ∷ cs) = c ++ joined cs

split_from-joined :
    (max : ℕ) (b c : Bytes) (cs : List Bytes) (s : Stream Bytes)
    → split_from max b (yields c (before cs s)) ≡ split_from max b (yields (c ++ joined cs) s)
split_from-joined max b c [] s = rw append-nil refl
split_from-joined max b c (d ∷ cs) s =
    split_from-join max b c d (before cs s)
    ∙ split_from-joined max b (c ++ d) cs s
    ∙ ap (λ t. split_from max b (yields t s)) (append_assoc c d (joined cs))

split_from-empty :
    (max : ℕ) (s : Stream Bytes) → split_from max [] (yields [] s) ≡ split_from max [] s
unfolding split_from drain_all
split_from-empty max s = refl

-- The messages and the ending of transformSplitEnvelope depend only on the bytes of the source and
-- its ending: two ways to cut the same bytes into chunks give the same stream.
pub transform_split_envelope-chunks :
    (max : ℕ) (cs ds : List Bytes) (s : Stream Bytes)
    → joined cs ≡ joined ds
    → transform_split_envelope max (before cs s) ≡ transform_split_envelope max (before ds s)
unfolding transform_split_envelope
transform_split_envelope-chunks max cs ds s h =
    whole cs ∙ ap (λ t. split_from max [] (yields t s)) h ∙ sym (whole ds)
  where
    whole :
        (es : List Bytes)
        → split_from max [] (before es s) ≡ split_from max [] (yields (joined es) s)
    whole es = sym (split_from-empty max (before es s)) ∙ split_from-joined max [] [] es s
