-- ===== src/GrpcWeb/Trailer/RoundTrip.antt =====
-- A trailer that trailer.ts writes and reads.
use Prim.Native.Char.{Char, code}
use text.Mathlib.TextLemmas.{cons-append, nil-append, append_assoc}
use node_dubbo.Prelude.{
  ℕ, ◌≡◌, ◌≢◌, refl, ap, sym, ◌∙◌, false, String, [], ◌∷◌, some, str_eq, eq_iff, ◌+++◌, All, arith,
}
use node_dubbo.Headers.{Headers, append, append_all}
use node_dubbo.Compression.{trim, trim_start, reverse_onto}
use node_dubbo.GrpcWeb.Trailer.{
  TextCoder, longer_first, split_crlf, named_by, at_colon, append_field, append_lines, trailer_text,
  trailer_parse, trailer_serialize,
}

-- No character of a text has the code `n`.
abbrev pub Without : ℕ → String → Type 0
Without n String.[] = Unit
Without n (String.◌∷◌ c s) = (code c ≢ n) × Without n s

split_cons :
    (c : Char) (s : String)
    → code c ≢ 13
    → split_crlf (String.◌∷◌ c s) ≡ longer_first c (split_crlf s)
unfolding split_crlf longer_first
split_cons c String.[] h = refl
split_cons c (String.◌∷◌ d s) h = ground arith

crlf_lem : (rest : String) → "\r\n" +++ rest ≡ String.◌∷◌ "\r" (String.◌∷◌ "\n" rest)
crlf_lem rest =
    cons-append "\r" "\n" rest
    ∙ ap (String.◌∷◌ "\r") (cons-append "\n" "" rest ∙ ap (String.◌∷◌ "\n") (nil-append rest))

split_line :
    (line rest : String)
    → Without 13 line
    → split_crlf (line +++ ("\r\n" +++ rest)) ≡ line ∷ split_crlf rest
unfolding split_crlf longer_first
split_line String.[] rest h = ap split_crlf (nil-append ("\r\n" +++ rest) ∙ crlf_lem rest)
split_line (String.◌∷◌ c line) rest (h, hs) =
    ap split_crlf (cons-append c line ("\r\n" +++ rest))
    ∙ split_cons c (line +++ ("\r\n" +++ rest)) h
    ∙ ap (longer_first c) (split_line line rest hs)

at_cons :
    (c : Char) (s : String) → code c ≢ 58 → at_colon (String.◌∷◌ c s) ≡ named_by c (at_colon s)
unfolding at_colon
at_cons c s h = ground arith

colon_lem : (value : String) → at_colon (": " +++ value) ≡ some ("", " " +++ value)
unfolding at_colon
colon_lem value = ap at_colon (cons-append ":" " " value)

at_key :
    (key value : String)
    → Without 58 key
    → at_colon (key +++ (": " +++ value)) ≡ some (key, " " +++ value)
unfolding named_by
at_key String.[] value h = ap at_colon (nil-append (": " +++ value)) ∙ colon_lem value
at_key (String.◌∷◌ c key) value (h, hs) =
    ap at_colon (cons-append c key (": " +++ value))
    ∙ at_cons c (key +++ (": " +++ value)) h
    ∙ ap (named_by c) (at_key key value hs)

-- The blank behind the colon is not part of the value.
trim_blank : (value : String) → trim (" " +++ value) ≡ trim value
unfolding trim trim_start
trim_blank value =
    ap (λ t. reverse_onto (trim_start (reverse_onto t "")) "")
      (ap trim_start (cons-append " " "" value) ∙ ap trim_start (nil-append value))

-- A field that a header can have: a name and a value without blanks around them, no colon in the
-- name, and no line break in either.
pub record IsField (field : String × String) : Type 0 where
  pub named : field.0 ≢ ""
  pub no_colon : Without 58 field.0
  pub no_break : Without 13 field.0 × Without 13 field.1
  pub trimmed : (trim field.0 ≡ field.0) × (trim field.1 ≡ field.1)

Without-append : (n : ℕ) (s t : String) → Without n s → Without n t → Without n (s +++ t)
Without-append n String.[] t p q = rw (nil-append t) q
Without-append n (String.◌∷◌ c s) t (p, ps) q =
    rw (cons-append c s t) (p, Without-append n s t ps q)

line_of : String → String → String
line_of key value = key +++ (": " +++ value)

text_lem :
    (key value rest : String)
    → (key +++ (": " +++ (value +++ "\r\n"))) +++ rest ≡ line_of key value +++ ("\r\n" +++ rest)
unfolding line_of
text_lem key value rest =
    append_assoc key (": " +++ (value +++ "\r\n")) rest
    ∙ ap (λ t. key +++ t)
        (append_assoc ": " (value +++ "\r\n") rest
          ∙ ap (λ t. ": " +++ t) (append_assoc value "\r\n" rest)
          ∙ sym (append_assoc ": " value ("\r\n" +++ rest)))
    ∙ sym (append_assoc key (": " +++ value) ("\r\n" +++ rest))

split_field :
    (key value rest : String)
    → IsField (key, value)
    → split_crlf ((key +++ (": " +++ (value +++ "\r\n"))) +++ rest)
      ≡ line_of key value ∷ split_crlf rest
unfolding line_of
split_field key value rest f =
    ap split_crlf (text_lem key value rest)
    ∙ split_line (key +++ (": " +++ value)) rest (
        Without-append 13 key (": " +++ value) f.no_break.0
          (Without-append 13 ": " value (omega arith, (omega arith, tt)) f.no_break.1))

append_line :
    (key value : String) (h : Headers)
    → IsField (key, value)
    → append_field (at_colon (line_of key value)) h ≡ append key value h
unfolding line_of append_field
append_line key value h f =
    rw (at_key key value f.no_colon, nonempty, trim_blank value, f.trimmed.0, f.trimmed.1) refl
  where
    nonempty : str_eq key "" ≡ false
    nonempty = ground (arith, f.named, eq_iff key "")

append_all-lines :
    (trailer h : Headers)
    → All IsField trailer
    → append_lines (split_crlf (trailer_text trailer)) h ≡ append_all trailer h
unfolding append_lines trailer_text append_all append_field at_colon split_crlf
append_all-lines [] h fs = refl
append_all-lines ((key, value) ∷ trailer) h (f, fs) =
    ap (λ lines. append_lines lines h) (split_field key value (trailer_text trailer) f)
    ∙ ap (append_lines (split_crlf (trailer_text trailer))) (append_line key value h f)
    ∙ append_all-lines trailer (append key value h) fs

-- trailerParse reads the fields that trailerSerialize has written, in their order, if no name is
-- empty or holds a colon, neither a name nor a value holds a carriage return or has blanks around
-- it, and the text is coded and decoded without loss.
pub trailer_parse-trailer_serialize :
    (coder : TextCoder) (trailer : Headers)
    → coder.decode (coder.encode (trailer_text trailer)) ≡ trailer_text trailer
    → All IsField trailer
    → trailer_parse coder (trailer_serialize coder trailer) ≡ append_all trailer []
unfolding trailer_parse trailer_serialize
trailer_parse-trailer_serialize coder trailer reads fields =
    ap (λ t. append_lines (split_crlf t) []) reads ∙ append_all-lines trailer [] fields
