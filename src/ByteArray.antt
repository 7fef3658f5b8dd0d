-- ===== src/ByteArray.antt =====
-- Byte arrays: big-endian 32-bit numbers as `DataView` reads and writes them, and writes into an
-- array of a fixed length as `Uint8Array.prototype.set` makes them.
use node_dubbo.Prelude.{
  ℕ, zero, suc, ◌+◌, ◌*◌, ◌/◌, ◌%◌, ◌<◌, ◌≡◌, refl, ap, List, [], ◌∷◌, ◌++◌, arith, length,
}

abbrev pub Bytes : Type 0
Bytes = List ℕ

-- `setUint32`, which keeps the value modulo 2 ^ 32.
unfoldable pub set_uint32 : ℕ → Bytes
set_uint32 n = n / 16777216 % 256 ∷ n / 65536 % 256 ∷ n / 256 % 256 ∷ n % 256 ∷ []

unfoldable pub get_uint32 : ℕ → ℕ → ℕ → ℕ → ℕ
get_uint32 a b c d = a * 16777216 + b * 65536 + c * 256 + d

pub get_uint32-set_uint32 :
    (n : ℕ)
    → n < 4294967296
    → get_uint32 (n / 16777216 % 256) (n / 65536 % 256) (n / 256 % 256) (n % 256) ≡ n
unfolding get_uint32
get_uint32-set_uint32 n h = omega arith

-- `new Uint8Array(n)`.
unfoldable pub zeros : ℕ → Bytes
zeros zero = []
zeros (suc n) = 0 ∷ zeros n

-- `buffer.set(bytes, 0)`; a write past the end, which throws in the source, is cut off.
unfoldable pub overwrite : Bytes → Bytes → Bytes
overwrite [] bytes = []
overwrite (x ∷ xs) [] = x ∷ xs
overwrite (x ∷ xs) (b ∷ bytes) = b ∷ overwrite xs bytes

-- `buffer.set(bytes, offset)`.
unfoldable pub set_at : Bytes → Bytes → ℕ → Bytes
unfolding overwrite
set_at buffer bytes zero = overwrite buffer bytes
set_at [] bytes (suc offset) = []
set_at (x ∷ xs) bytes (suc offset) = x ∷ set_at xs bytes offset

pub length-zeros : (n : ℕ) → length (zeros n) ≡ n
unfolding zeros
length-zeros zero = refl
length-zeros (suc n) = ap suc (length-zeros n)

-- A write behind a prefix leaves the prefix.
pub set_at-append :
    (xs ys bytes : Bytes) (k n : ℕ)
    → n ≡ length xs + k
    → set_at (xs ++ ys) bytes n ≡ xs ++ set_at ys bytes k
unfolding set_at
set_at-append [] ys bytes k n h = ap (set_at ys bytes) (omega arith)
set_at-append (x ∷ xs) ys bytes k zero h = absurd (omega arith)
set_at-append (x ∷ xs) ys bytes k (suc n) h =
    ap (λ t. x ∷ t) (set_at-append xs ys bytes k n (omega arith))

pub overwrite-nil : (xs : Bytes) → overwrite xs [] ≡ xs
unfolding overwrite
overwrite-nil [] = refl
overwrite-nil (x ∷ xs) = refl

pub overwrite-zeros :
    (bytes : Bytes) (n m : ℕ) → m ≡ length bytes + n → overwrite (zeros m) bytes ≡ bytes ++ zeros n
unfolding overwrite zeros
overwrite-zeros [] zero zero h = refl
overwrite-zeros [] (suc n) zero h = absurd (omega arith)
overwrite-zeros [] zero (suc m) h = absurd (omega arith)
overwrite-zeros [] (suc n) (suc m) h = ap (λ (k : ℕ). zeros (suc k)) (omega arith)
overwrite-zeros (b ∷ bytes) n zero h = absurd (omega arith)
overwrite-zeros (b ∷ bytes) n (suc m) h = ap (λ t. b ∷ t) (overwrite-zeros bytes n m (omega arith))
