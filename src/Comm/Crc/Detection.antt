-- ===== src/Comm/Crc/Detection.antt =====
-- What the checksum of src/comm/crc.cc detects.
use Prim.Native.Nat.{bit_xor}
use pancake_store.Base.{
  ℕ, zero, suc, ◌/◌, ◌%◌, ◌^◌, ◌<◌, ◌≡◌, sym, ◌∙◌, List, [], ◌∷◌, ◌++◌, length, IsByte, arith, All,
  ◌≢◌,
}
use pancake_store.Base.Xor.{
  bit_xor_comm, bit_xor_cancel, bit_xor_injective, bit_xor-div, bit_xor-lt,
}
use pancake_store.Comm.Crc.{crc32}
use pancake_store.Comm.Crc.Reference.{
  polynomial, shift_bit, shift_bits, divide_bytes, crc32-eq-divide_bytes,
}

shift_bit-lt : (v : ℕ) → v < 2 ^ 32 → shift_bit v < 2 ^ 32
unfolding shift_bit
shift_bit-lt v h = ground (arith, bit_xor-lt 32 (v / 2) polynomial)

-- The top bit of the register tells which bit fell out.
shift_bit_top : (v : ℕ) → v < 2 ^ 32 → shift_bit v / 2 ^ 31 ≡ v % 2
unfolding shift_bit
shift_bit_top v h = ground (arith, bit_xor-div 31 (v / 2) polynomial)

shift_bit_injective : (v w : ℕ) → v < 2 ^ 32 → w < 2 ^ 32 → shift_bit v ≡ shift_bit w → v ≡ w
unfolding shift_bit
shift_bit_injective v w hv hw e = ground (
  arith,
  shift_bit_top v hv,
  shift_bit_top w hw,
  bit_xor_comm (v / 2) polynomial,
  bit_xor_comm (w / 2) polynomial,
  bit_xor_cancel polynomial (v / 2),
  bit_xor_cancel polynomial (w / 2),
)

shift_bits_injective :
    (k v w : ℕ) → v < 2 ^ 32 → w < 2 ^ 32 → shift_bits k v ≡ shift_bits k w → v ≡ w
unfolding shift_bits
shift_bits_injective zero v w hv hw e = e
shift_bits_injective (suc k) v w hv hw e =
    shift_bit_injective v w hv hw
      (shift_bits_injective k (shift_bit v) (shift_bit w) (shift_bit-lt v hv) (shift_bit-lt w hw) e)

shift_bits-lt : (k v : ℕ) → v < 2 ^ 32 → shift_bits k v < 2 ^ 32
unfolding shift_bits
shift_bits-lt zero v h = h
shift_bits-lt (suc k) v h = shift_bits-lt k (shift_bit v) (shift_bit-lt v h)

xor_byte-lt : (crc b : ℕ) → crc < 2 ^ 32 → b < 256 → bit_xor crc b < 2 ^ 32
xor_byte-lt crc b h k = bit_xor-lt 32 crc b h (omega arith)

divide_bytes-lt :
    (bytes : List ℕ) (crc : ℕ) → All IsByte bytes → crc < 2 ^ 32 → divide_bytes bytes crc < 2 ^ 32
unfolding divide_bytes
divide_bytes-lt [] crc hb h = h
divide_bytes-lt (b ∷ bytes) crc hb h =
    divide_bytes-lt bytes _ hb.1 (shift_bits-lt 8 _ (xor_byte-lt crc b h hb.0))

-- Two registers that differ are told apart after the same bytes.
divide_bytes_injective :
    (bytes : List ℕ) (c d : ℕ)
    → All IsByte bytes
    → c < 2 ^ 32
    → d < 2 ^ 32
    → divide_bytes bytes c ≡ divide_bytes bytes d
    → c ≡ d
unfolding divide_bytes
divide_bytes_injective [] c d hb hc hd e = e
divide_bytes_injective (b ∷ bytes) c d hb hc hd e = bit_xor_injective b c d (
    bit_xor_comm b c
    ∙ shift_bits_injective 8 _ _ (xor_byte-lt c b hc hb.0) (xor_byte-lt d b hd hb.0) (
        divide_bytes_injective bytes _ _ hb.1 (shift_bits-lt 8 _ (xor_byte-lt c b hc hb.0))
          (shift_bits-lt 8 _ (xor_byte-lt d b hd hb.0)) e)
    ∙ bit_xor_comm d b)

divide_bytes_changed :
    (front : List ℕ) (x y : ℕ) (back : List ℕ) (c : ℕ)
    → All IsByte (front ++ (x ∷ back))
    → All IsByte (front ++ (y ∷ back))
    → c < 2 ^ 32
    → divide_bytes (front ++ (x ∷ back)) c ≡ divide_bytes (front ++ (y ∷ back)) c
    → x ≡ y
unfolding divide_bytes
divide_bytes_changed [] x y back c hx hy hc e = bit_xor_injective c x y (
    shift_bits_injective 8 _ _ (xor_byte-lt c x hc hx.0) (xor_byte-lt c y hc hy.0) (
      divide_bytes_injective back _ _ hx.1 (shift_bits-lt 8 _ (xor_byte-lt c x hc hx.0))
        (shift_bits-lt 8 _ (xor_byte-lt c y hc hy.0)) e))
divide_bytes_changed (b ∷ front) x y back c hx hy hc e =
    divide_bytes_changed front x y back _ hx.1 hy.1 (shift_bits-lt 8 _ (xor_byte-lt c b hc hx.0)) e

-- The checksum of a buffer of bytes fits 32 bits.
pub crc32-lt : (bytes : List ℕ) → All IsByte bytes → crc32 bytes (length bytes) < 2 ^ 32
crc32-lt bytes h =
    rw (crc32-eq-divide_bytes bytes h)
      (bit_xor-lt 32 _ _ (divide_bytes-lt bytes _ h (omega arith)) (omega arith))

-- Two buffers of bytes that differ in exactly one byte have different checksums.
pub crc32_single_byte :
    (front : List ℕ) (x y : ℕ) (back : List ℕ)
    → All IsByte (front ++ (x ∷ back))
    → All IsByte (front ++ (y ∷ back))
    → x ≢ y
    → crc32 (front ++ (x ∷ back)) (length (front ++ (x ∷ back)))
      ≢ crc32 (front ++ (y ∷ back)) (length (front ++ (y ∷ back)))
crc32_single_byte front x y back hx hy ne e = ne (
    divide_bytes_changed front x y back 0xFFFFFFFF hx hy (omega arith) (
      bit_xor_injective 0xFFFFFFFF _ _ (
        bit_xor_comm 0xFFFFFFFF _
        ∙ sym (crc32-eq-divide_bytes _ hx)
        ∙ e
        ∙ crc32-eq-divide_bytes _ hy
        ∙ bit_xor_comm _ 0xFFFFFFFF)))
