-- ===== src/Triple/Mux.antt =====
-- packages/dubbo/src/protocol-triple/trailer-mux.ts. The names of a Headers object are in lower
-- case, as `forEach` gives them.
use Prim.Native.Char.{code}
use node_dubbo.Prelude.{String, [], ◌∷◌, Option, none, some, ◌==◌, ◌+++◌, if◌then◌else◌}
use node_dubbo.Headers.{Headers, set}

-- What is behind a prefix.
unfoldable pub behind_prefix : String → String → Option String
behind_prefix String.[] s = some s
behind_prefix (String.◌∷◌ c p) String.[] = none
behind_prefix (String.◌∷◌ c p) (String.◌∷◌ d s) =
    let rest = behind_prefix p s in if code c == code d then rest else none

unfoldable pub put_field : Option String → String → String → Headers × Headers → Headers × Headers
put_field none key value (h, t) = (set key value h, t)
put_field (some name) key value (h, t) = (h, set name value t)

unfoldable pub demux_onto : Headers → Headers × Headers → Headers × Headers
unfolding behind_prefix put_field
demux_onto [] r = r
demux_onto ((key, value) ∷ header) r =
    demux_onto header (put_field (behind_prefix "trailer-" key) key value r)

unfoldable pub trailer_demux : Headers → Headers × Headers
unfolding demux_onto
trailer_demux header = demux_onto header ([], [])

unfoldable pub trailer_mux : Headers → Headers → Headers
trailer_mux header [] = header
trailer_mux header ((key, value) ∷ trailer) =
    trailer_mux (set ("trailer-" +++ key) value header) trailer
