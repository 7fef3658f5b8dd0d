-- ===== src/Compression/Tests.antt =====
-- Runs of the negotiation at concrete values.
use node_dubbo.Prelude.{◌≡◌, refl, String, [], ◌∷◌, some, map}
use node_dubbo.Error.{ok}
use node_dubbo.Envelope.{Compression}
use node_dubbo.Compression.{split_from, split_commas, trim, first_available}

abbrev plain : String → Compression
plain name = record { name = name; compress = λ b. ok b; decompress = λ b max. ok b }

accepted_names : map trim (split_commas "br , gzip,x") ≡ "br" ∷ "gzip" ∷ "x" ∷ []
unfolding trim split_from
accepted_names = refl

chosen :
    first_available (plain "gzip" ∷ plain "br" ∷ []) ("x" ∷ "br" ∷ "gzip" ∷ []) ≡ some (plain "br")
unfolding first_available
chosen = refl
