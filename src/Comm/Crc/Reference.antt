-- ===== src/Comm/Crc/Reference.antt =====
-- The table of src/comm/crc.cc against polynomial division bit by bit.
use Prim.Native.Nat.{bit_xor}
use pancake_store.Base.{
  ℕ, zero, suc, ◌+◌, ◌*◌, ◌/◌, ◌%◌, ◌^◌, ◌<◌, ◌≡◌, refl, sym, ap, ◌∙◌, List, [], ◌∷◌, get_or,
  length, IsByte, ◌==◌, if◌then◌else◌, true, arith, ==→eq, All,
}
use pancake_store.Base.Xor.{
  bit_xor_step, bit_xor-zero, bit_xor_comm, bit_xor_assoc, bit_xor_cancel, bit_xor-div, bit_xor-mod,
}
use pancake_store.Base.And.{bit_and_byte}
use pancake_store.Base.Range.{all_below, all_below_sound}
use native.Mathlib.Nat.{pow-suc}
use pancake_store.Comm.Crc.{crc_table, char_to_uint32, crc_step, crc_loop, crc32}

-- The reflected polynomial of CRC-32 (IEEE 802.3).
abbrev pub polynomial : ℕ
polynomial = 0xEDB88320

-- One bit of the division: the register shifts right, and the polynomial is taken off if a one
-- fell out.
unfoldable pub shift_bit : ℕ → ℕ
shift_bit v = if v % 2 == 1 then bit_xor (v / 2) polynomial else v / 2

unfoldable pub shift_bits : ℕ → ℕ → ℕ
shift_bits zero v = v
shift_bits (suc k) v = shift_bits k (shift_bit v)

-- The register after a list of bytes, eight bits to a byte.
unfoldable pub divide_bytes : List ℕ → ℕ → ℕ
divide_bytes [] crc = crc
divide_bytes (b ∷ bytes) crc = divide_bytes bytes (shift_bits 8 (bit_xor crc b))

xor_swap : (a b p : ℕ) → bit_xor (bit_xor a b) p ≡ bit_xor (bit_xor a p) b
xor_swap a b p = bit_xor_assoc a b p ∙ ap (bit_xor a) (bit_xor_comm b p) ∙ sym (bit_xor_assoc a p b)

xor_both : (a b p : ℕ) → bit_xor (bit_xor a p) (bit_xor b p) ≡ bit_xor a b
xor_both a b p =
    bit_xor_assoc a p (bit_xor b p)
    ∙ ap (bit_xor a) (ap (bit_xor p) (bit_xor_comm b p) ∙ bit_xor_cancel p b)

shift_bit-xor : (a b : ℕ) → shift_bit (bit_xor a b) ≡ bit_xor (shift_bit a) (shift_bit b)
unfolding shift_bit
shift_bit-xor a b = ground (
  arith,
  bit_xor-mod 1 a b,
  bit_xor_step (a % 2) (b % 2),
  bit_xor-div 1 a b,
  xor_swap (a / 2) (b / 2) polynomial,
  bit_xor_assoc (a / 2) (b / 2) polynomial,
  xor_both (a / 2) (b / 2) polynomial,
)

shift_bits-xor :
    (k a b : ℕ) → shift_bits k (bit_xor a b) ≡ bit_xor (shift_bits k a) (shift_bits k b)
unfolding shift_bits
shift_bits-xor zero a b = refl
shift_bits-xor (suc k) a b =
    ap (shift_bits k) (shift_bit-xor a b) ∙ shift_bits-xor k (shift_bit a) (shift_bit b)

shift_bit_fields :
    (m r : ℕ)
    → shift_bit (2 * m + r) ≡ (if r % 2 == 1 then bit_xor (m + r / 2) polynomial else m + r / 2)
unfolding shift_bit
shift_bit_fields m r = ground arith

-- What stands above the `k` lowest bits only moves down.
shift_bits_fields :
    (k u r : ℕ) → r < 2 ^ k → shift_bits k (u * 2 ^ k + r) ≡ bit_xor (shift_bits k r) u
unfolding shift_bits
shift_bits_fields zero u zero h = ground (arith, bit_xor-zero u)
shift_bits_fields zero u (suc r) h = absurd (omega arith)
shift_bits_fields (suc k) u r h = ground (
  arith,
  ap (λ (t : ℕ). u * t) (pow-suc 2 k),
  pow-suc 2 k,
  shift_bit_fields (u * 2 ^ k) r,
  shift_bit_fields 0 r,
  shift_bits-xor k (u * 2 ^ k + r / 2) polynomial,
  shift_bits-xor k (r / 2) polynomial,
  shift_bits_fields k u (r / 2),
  xor_swap (shift_bits k (r / 2)) u (shift_bits k polynomial),
)

-- Every entry of the table is its index, divided bit by bit.
table_check : all_below 256 (λ i. get_or crc_table i 0 == shift_bits 8 i) ≡ true
unfolding crc_table shift_bits shift_bit all_below
table_check = refl

crc_table_entry : (i : ℕ) → i < 256 → get_or crc_table i 0 ≡ shift_bits 8 i
crc_table_entry i h = ==→eq _ _ (all_below_sound 256 _ i table_check h)

char_low : (crc b : ℕ) → b < 256 → bit_xor crc (char_to_uint32 b) % 256 ≡ bit_xor crc b % 256
unfolding char_to_uint32
char_low crc b h = ground (arith, bit_xor-mod 8 crc b, bit_xor-mod 8 crc (b + 0xFFFFFF00))

byte_high : (crc b : ℕ) → b < 256 → bit_xor crc b / 256 ≡ crc / 256
byte_high crc b h =
    ground (arith, bit_xor-div 8 crc b, bit_xor_comm (crc / 256) 0, bit_xor-zero (crc / 256))

-- One round of the table-driven loop is eight bits of the division.
crc_step-eq-shift_bits : (crc b : ℕ) → b < 256 → crc_step crc b ≡ shift_bits 8 (bit_xor crc b)
unfolding crc_step
crc_step-eq-shift_bits crc b h = ground (
  arith,
  bit_and_byte (bit_xor crc (char_to_uint32 b)),
  char_low crc b,
  byte_high crc b,
  crc_table_entry (bit_xor crc b % 256),
  shift_bits_fields 8 (bit_xor crc b / 256) (bit_xor crc b % 256),
)

-- From any register of any width, the loop over a whole buffer of bytes is the division.
crc_loop-eq-divide_bytes :
    (bytes : List ℕ) (crc : ℕ)
    → All IsByte bytes
    → crc_loop (length bytes) bytes crc ≡ divide_bytes bytes crc
unfolding crc_loop divide_bytes
crc_loop-eq-divide_bytes [] crc h = refl
crc_loop-eq-divide_bytes (b ∷ bytes) crc h =
    ap (crc_loop (length bytes) bytes) (crc_step-eq-shift_bits crc b h.0)
    ∙ crc_loop-eq-divide_bytes bytes (shift_bits 8 (bit_xor crc b)) h.1

-- `CRC32` of a whole buffer of bytes is the remainder that polynomial division bit by bit gives,
-- started from and finished by a complement: the table and the loop implement CRC-32.
pub crc32-eq-divide_bytes :
    (bytes : List ℕ)
    → All IsByte bytes
    → crc32 bytes (length bytes) ≡ bit_xor (divide_bytes bytes 0xFFFFFFFF) 0xFFFFFFFF
unfolding crc32
crc32-eq-divide_bytes bytes h = ap (λ c. bit_xor c 0xFFFFFFFF) (crc_loop-eq-divide_bytes bytes _ h)
