-- ===== src/Block/Step.antt =====
-- How a block is read back: the `read_data` lambda that every `Deserialize` of pancake_block.cc
-- starts with, its early returns, and the checks around it.
pub mod Reads
pub mod Skips
use pancake_store.Base.{
  ℕ, ◌+◌, ◌-◌, ◌≡◌, Bool, Option, none, some, List, [], ◌∷◌, length, take, drop, ltb, ◌==◌,
  if◌then◌else◌,
}
use pancake_store.Comm.ErrorCode.{
  ErrorCode, pancake_store_ok, datanode_storage_block_size_illegal,
  datanode_storage_block_data_illegal, datanode_storage_block_crc_mismatch,
}
use pancake_store.Comm.Crc.{crc32}
use pancake_store.Block.Host.{Host}
use pancake_store.Block.Bytes.{k_block_size}

-- `go b rest`: the fields read so far stand in `b`, and `ptr` is at `rest` (`remaining` is its
-- length). `stop e b`: `Deserialize` has returned `e` and left `b` behind.
pub data Outcome (B : Type 0) : Type 0 where
  go : B → List ℕ → Outcome B
  stop : ErrorCode → B → Outcome B

abbrev pub Step : Type 0 → Type 0
Step B = B → List ℕ → Outcome B

infixr 5 ◌>>◌
abbrev pub ◌>>◌ : {B : Type 0} → Step B → Step B → Step B
◌>>◌ m k b rest = elim (m b rest) [ go b' rest' ↦ k b' rest' | stop e b' ↦ stop e b' ]

-- `if (!read_data(&field, size)) return DATA_ILLEGAL;`, where `assign` stores what was copied.
unfoldable pub read_data : {B : Type 0} → ℕ → (List ℕ → B → B) → Step B
read_data size assign b rest =
    if ltb (length rest) size
    then stop datanode_storage_block_data_illegal b
    else go (assign (take size rest) b) (drop size rest)

-- A field of one byte.
abbrev pub byte_value : List ℕ → ℕ
byte_value [] = 0
byte_value (b ∷ _) = b

unfoldable pub read_byte : {B : Type 0} → (ℕ → B → B) → Step B
unfolding read_data
read_byte assign = read_data 1 (λ bytes. assign (byte_value bytes))

-- A field of `width` bytes in network order, through a local that `ntoh` turns around.
unfoldable pub read_int : {B : Type 0} → Host → ℕ → (ℕ → B → B) → Step B
unfolding read_data
read_int host width assign =
    read_data width (λ bytes. assign (host.ntoh width (host.object_value bytes)))

-- `if (!test) return error;`
unfoldable pub expect : {B : Type 0} → (B → Bool) → ErrorCode → Step B
expect test error b rest = if test b then go b rest else stop error b

-- What stands after the reads: the checksum is taken over all that was read but its own four
-- bytes, `ptr - data.data() - sizeof(crc_)`, and compared with the field.
unfoldable pub check_crc : {B : Type 0} → (B → ℕ) → List ℕ → Outcome B → ErrorCode × B
check_crc crc_of bytes (stop e b) = (e, b)
check_crc crc_of bytes (go b rest) =
    if crc32 bytes (length bytes - length rest - 4) == crc_of b
    then (pancake_store_ok, b)
    else (datanode_storage_block_crc_mismatch, b)

-- The frame of every `Deserialize`: the size check, the reads, the checksum.
unfoldable pub deserialize_block : {B : Type 0} → Step B → (B → ℕ) → B → List ℕ → ErrorCode × B
unfolding check_crc
deserialize_block steps crc_of b bytes =
    if length bytes == k_block_size
    then check_crc crc_of bytes (steps b bytes)
    else (datanode_storage_block_size_illegal, b)

-- `append_data` of an integer in network order.
unfoldable pub int_bytes : Host → ℕ → ℕ → List ℕ
int_bytes host width v = host.object_bytes width (host.hton width v)

-- `assert(result.size() == k_block_size)` at the end of every `Serialize`, and its `return`: `none`
-- is the abort of the process. With NDEBUG nothing is checked. The repository builds for release
-- unless it is told otherwise, where CMake defines NDEBUG, and for debug without it.
unfoldable pub assert_block_size : {B : Type 0} → Host → B → List ℕ → Option (B × List ℕ)
assert_block_size host b bytes =
    if length bytes == k_block_size
    then some (b, bytes)
    else if host.ndebug
    then some (b, bytes)
    else none
