-- ===== src/Io.antt =====
-- src/datanode/storage/engine/pancake/pancake_io.{h,cc} and `IsBlockAlign` of pancake_comm.cc.
pub mod Laws
use pancake_store.Base.{
  ℕ, zero, suc, ◌+◌, ◌-◌, ◌%◌, ◌≤◌, ◌<◌, ◌≡◌, Bool, ◌||◌, not, Option, none, some, List, [], ◌∷◌,
  ◌++◌, length, get_or, ◌==◌, leb, ltb, ◌&&◌, if◌then◌else◌,
}
use pancake_store.Comm.ErrorCode.{
  ErrorCode, pancake_store_ok, datanode_storage_not_block_aligned,
  datanode_storage_io_read_at_failed, datanode_storage_io_write_at_failed,
  datanode_storage_device_open_failed,
}
use pancake_store.Block.Bytes.{k_block_size}

-- `n` bytes of a device from the offset `off` on.
abbrev pub slice : (ℕ → ℕ) → ℕ → ℕ → List ℕ
slice content off zero = []
slice content off (suc n) = content off ∷ slice content (off + 1) n

-- A device after `bytes` were written at `off`.
abbrev pub overlay : (ℕ → ℕ) → ℕ → List ℕ → ℕ → ℕ
overlay content off bytes i =
    if leb off i && ltb i (off + length bytes) then get_or bytes (i - off) 0 else content i

-- `seastar::file` on an open device in the state `S`. `none` is an exception. A read that
-- succeeds returns the bytes asked for; a write that reports all its bytes has stored them there,
-- and changed no other.
pub record File (S : Type 0) : Type 0 where
  pub dma_read_exactly : S → ℕ → ℕ → Option (List ℕ)
  pub dma_write : S → ℕ → List ℕ → S × Option ℕ
  pub content : S → ℕ → ℕ
  pub read_lem :
      (s : S) (off len : ℕ) (bytes : List ℕ)
      → dma_read_exactly s off len ≡ some bytes
      → bytes ≡ slice (content s) off len
  pub write_lem :
      (s : S) (off : ℕ) (bytes : List ℕ)
      → (dma_write s off bytes).1 ≡ some (length bytes)
      → (i : ℕ) → content ((dma_write s off bytes).0) i ≡ overlay (content s) off bytes i

unfoldable pub is_block_align : ℕ → Bool
is_block_align val = val % k_block_size == 0

-- A `PancakeIO`: its open file, of the type `F`, is `none` until `Init`.
pub record PancakeIo (F : Type 0) : Type 0 where
  pub device_fd : Option F
  pub device_path : List ℕ
  pub device_id : ℕ

-- The members' initializers.
abbrev pub new_io : {F : Type 0} → PancakeIo F
new_io = record { device_fd = none; device_path = []; device_id = 0 }

-- With `seastar::open_file_dma` of the flags `rw` and `dsync`: `none` is an exception.
unfoldable pub init :
    {F : Type 0} → (List ℕ → Option F) → PancakeIo F → List ℕ → ℕ → ErrorCode × PancakeIo F
init open_file_dma self device_path device_id = elim (open_file_dma device_path) [
  | none ↦ (datanode_storage_device_open_failed, self)
  | some device_fd ↦ (
    pancake_store_ok,
    record { device_fd = some device_fd; device_path = device_path; device_id = device_id },
  )
]

module _ {S : Type 0} (file : File S) where
  -- `read_buf` is appended to.
  unfoldable pub read_at : S → ℕ → ℕ → List ℕ → ErrorCode × List ℕ
  unfolding is_block_align
  read_at s offset read_len read_buf =
      if not (is_block_align offset) || not (is_block_align read_len)
      then (datanode_storage_not_block_aligned, read_buf)
      else elim (file.dma_read_exactly s offset read_len) [
        | some bytes ↦ (pancake_store_ok, read_buf ++ bytes)
        | none ↦ (datanode_storage_io_read_at_failed, read_buf)
      ]

  unfoldable pub write_result : S × Option ℕ → ℕ → ErrorCode × S
  write_result (s, some len) size =
      if len == size then (pancake_store_ok, s) else (datanode_storage_io_write_at_failed, s)
  write_result (s, none) size = (datanode_storage_io_write_at_failed, s)

  unfoldable pub write_at : S → ℕ → List ℕ → ErrorCode × S
  unfolding is_block_align write_result
  write_at s offset write_buf =
      if not (is_block_align offset) || not (is_block_align (length write_buf))
      then (datanode_storage_not_block_aligned, s)
      else write_result (file.dma_write s offset write_buf) (length write_buf)
