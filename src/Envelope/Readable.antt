-- ===== src/Envelope/Readable.antt =====
-- packages/dubbo/src/protocol/envelope.ts: createEnvelopeReadableStream, a ReadableStream of
-- messages out of one of bytes. The platform calls `pull` when the reader asks for a message.
pub mod Pull
pub mod Delivery
pub mod Faults
use node_dubbo.Prelude.{
  ℕ, zero, suc, ◌+◌, ◌-◌, Bool, true, false, [], ◌++◌, Option, none, some, length, get_or, take,
  drop, ltb, leb, ◌==◌, if◌then◌else◌,
}
use node_dubbo.ByteArray.{Bytes, get_uint32}
use node_dubbo.Error.{Code, Reason, dubbo, out_of_fuel, error}
use node_dubbo.Stream.{Stream, finished, raised, yields}
use node_dubbo.Envelope.{EnvelopedMessage}

-- A number of 32 bits with its sign: `below_zero n` is -n.
pub data Length : Type 0 where
  positive : ℕ → Length
  below_zero : ℕ → Length

-- `(length << 8) + buffer[i]` for four bytes: the shift makes a signed number of 32 bits.
unfoldable pub signed : ℕ → Length
signed n = if ltb n 2147483648 then positive n else below_zero (4294967296 - n)

pub record FrameHeader : Type 0 where
  pub flags : ℕ
  pub length : Length

unfoldable pub read_header : Option FrameHeader → Bytes → Option FrameHeader
unfolding signed get_uint32
read_header (some header) buffer = some header
read_header none buffer =
    if ltb (length buffer) 5
    then none
    else some (record {
      flags = get_or buffer 0 0;
      length = signed (
          get_uint32 (get_or buffer 1 0) (get_or buffer 2 0) (get_or buffer 3 0)
            (get_or buffer 4 0));
    })

-- `buffer.byteLength >= header.length + 5`.
unfoldable pub is_complete : Option FrameHeader → ℕ → Bool
is_complete none n = false
is_complete (some header) n = elim header.length [
  | positive k ↦ leb (k + 5) n
  | below_zero k ↦ leb 5 (n + k)
]

-- The index `5 + header.length` of `subarray` in `n` bytes: a negative one counts from the end.
unfoldable pub data_end : Length → ℕ → ℕ
data_end (positive k) n = 5 + k
data_end (below_zero k) n = if leb k 5 then 5 - k else (n + 5) - k

-- What a call of `pull` does: close, fail, or enqueue a message and keep the rest of the buffer.
pub data Pulled : Type 0 where
  closed : Pulled
  failed : Reason → Pulled
  enqueued : EnvelopedMessage → Bytes → Stream Bytes → Pulled

-- Behind the loop.
unfoldable pub enqueue : Option FrameHeader → Bytes → Stream Bytes → Pulled
unfolding data_end
enqueue none buffer source =
    if length buffer == 0
    then closed
    else failed (dubbo (error "premature end of stream" Code.data_loss))
enqueue (some header) buffer source =
    let end = data_end header.length (length buffer) in
    enqueued (record { flags = header.flags; payload = take (end - 5) (drop 5 buffer) })
      (drop end buffer) source

-- The loop: a header is read once the buffer has five bytes.
unfoldable pub pull : Option FrameHeader → Bytes → Stream Bytes → Pulled
pull header buffer finished = enqueue (read_header header buffer) buffer finished
pull header buffer (raised e) =
    if is_complete (read_header header buffer) (length buffer)
    then enqueue (read_header header buffer) buffer (raised e)
    else failed e
pull header buffer (yields chunk source) =
    let more = pull (read_header header buffer) (buffer ++ chunk) source in
    if is_complete (read_header header buffer) (length buffer)
    then enqueue (read_header header buffer) buffer (yields chunk source)
    else more

-- What a reader gets that asks for messages, as often as there is fuel.
unfoldable pub messages : ℕ → Bytes → Stream Bytes → Stream EnvelopedMessage
messages zero buffer source = raised out_of_fuel
messages (suc fuel) buffer source = elim (pull none buffer source) [
  | closed ↦ finished
  | failed e ↦ raised e
  | enqueued env rest more ↦ yields env (messages fuel rest more)
]

unfoldable pub create_envelope_readable_stream : ℕ → Stream Bytes → Stream EnvelopedMessage
unfolding messages pull read_header is_complete enqueue
create_envelope_readable_stream fuel stream = messages fuel [] stream
