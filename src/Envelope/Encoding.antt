-- ===== src/Envelope/Encoding.antt =====
-- What `encodeEnvelope` and `encodeEnvelopes` write, byte for byte.
use node_dubbo.Prelude.{
  ℕ, suc, ◌+◌, ◌%◌, ◌≡◌, refl, ◌∙◌, List, [], ◌∷◌, ◌++◌, append-nil, append_assoc, arith, length,
  length-append,
}
use node_dubbo.ByteArray.{
  Bytes, set_uint32, zeros, set_at, overwrite, overwrite-zeros, set_at-append, overwrite-nil,
}
use node_dubbo.Envelope.{
  EnvelopedMessage, encode_envelope, encode_envelopes, encode_loop, total_length,
}

-- One message on the wire: the flags, the length in four bytes, the payload.
abbrev pub frame : ℕ → Bytes → Bytes
frame flags payload = flags % 256 ∷ (set_uint32 (length payload) ++ payload)

-- Messages behind one another.
abbrev pub frames : List EnvelopedMessage → Bytes
frames [] = []
frames (e ∷ es) = frame e.flags e.payload ++ frames es

five_more : (n : ℕ) → n + 5 ≡ suc (suc (suc (suc (suc n))))
five_more n = omega arith

overwrite-zeros_self : (p : Bytes) → overwrite (zeros (length p)) p ≡ p
overwrite-zeros_self p = overwrite-zeros p 0 (length p) (omega arith) ∙ unfold zeros in append-nil p

pub encode_envelope_lem :
    (flags : ℕ) (payload : Bytes) → encode_envelope flags payload ≡ frame flags payload
unfolding encode_envelope
encode_envelope_lem flags payload =
    rw (five_more (length payload)) (rw overwrite-zeros_self (rw overwrite-nil))

-- The three writes of one round, into an array with room for the message and for `n` bytes more.
fill_round :
    (flags : ℕ) (payload : Bytes) (n m : ℕ)
    → m ≡ suc (suc (suc (suc (suc (length payload + n)))))
    → set_at
        (set_at (set_at (zeros m) (flags % 256 ∷ []) 0) (set_uint32 (length payload)) 1)
        payload
        5
      ≡ frame flags payload ++ zeros n
unfolding encode_envelope
fill_round flags payload n m h =
    rw h (rw overwrite-nil (rw (overwrite-zeros payload n (length payload + n) refl)))

room : List EnvelopedMessage → ℕ
room [] = 0
room (e ∷ es) = length e.payload + 5 + room es

total_length-room : (es : List EnvelopedMessage) (n : ℕ) → total_length es n ≡ n + room es
unfolding total_length room
total_length-room [] n = omega arith
total_length-room (e ∷ es) n = omega (arith, total_length-room es (n + length e.payload + 5))

pub length-frame : (flags : ℕ) (payload : Bytes) → length (frame flags payload) ≡ length payload + 5
unfolding set_uint32
length-frame flags payload = omega arith

append_zeros : (xs : Bytes) → xs ++ zeros 0 ≡ xs ++ []
unfolding zeros
append_zeros xs = refl

encode_loop_lem :
    (es : List EnvelopedMessage) (written : Bytes) (offset : ℕ)
    → offset ≡ length written
    → encode_loop (written ++ zeros (room es)) offset es ≡ written ++ frames es
unfolding encode_loop room
encode_loop_lem [] written offset h = append_zeros written
encode_loop_lem (e ∷ es) written offset h =
    let len = length e.payload in
    rw
      (
        set_at-append written (zeros (len + 5 + room es)) (e.flags % 256 ∷ []) 0 offset
            (omega arith),
        set_at-append written _ (set_uint32 len) 1 (offset + 1) (omega arith),
        set_at-append written _ e.payload 5 (offset + 5) (omega arith),
        fill_round e.flags e.payload (room es) (len + 5 + room es) (omega arith),
        ← append_assoc written (frame e.flags e.payload) (zeros (room es)),
      )
      (encode_loop_lem es (written ++ frame e.flags e.payload) (offset + (len + 5)) (
          omega (
            arith,
            length-append written (frame e.flags e.payload),
            length-frame e.flags e.payload,
          ))
        ∙ append_assoc written (frame e.flags e.payload) (frames es))

-- encodeEnvelopes writes the frames of its messages one after another: for each the flags in one
-- byte, the length in four bytes, and the payload.
pub encode_envelopes_lem : (es : List EnvelopedMessage) → encode_envelopes es ≡ frames es
unfolding encode_envelopes
encode_envelopes_lem es =
    let whole : total_length es 0 ≡ room es = omega (arith, total_length-room es 0) in
    rw whole (encode_loop_lem es [] 0 refl)
