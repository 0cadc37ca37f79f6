-- ===== src/Block/Journal.antt =====
-- `JournalBlock` of pancake_block.{h,cc}.
pub mod Laws
pub mod Answers
use pancake_store.Base.{
  ℕ, ◌+◌, ◌^◌, ◌<◌, ◌≡◌, List, [], ◌∷◌, ◌++◌, length, All, IsByte, Option, ◌==◌,
}
use pancake_store.Comm.ErrorCode.{ErrorCode, datanode_storage_block_magic_illegal}
use pancake_store.Comm.Crc.{crc32}
use pancake_store.Block.Host.{Host}
use pancake_store.Block.Bytes.{k_block_data_size, k_block_magic, concat}
use pancake_store.Block.Step.{
  Step, ◌>>◌, read_data, read_byte, read_int, expect, int_bytes, deserialize_block,
  assert_block_size,
}

pub record JournalBlockFooter : Type 0 where
  pub magic : ℕ
  pub version : ℕ
  pub flag : ℕ
  pub data_length : ℕ
  pub extent_id : ℕ
  pub transaction_id : ℕ
  pub commited_flag : ℕ
  pub reserved : List ℕ
  pub crc : ℕ

pub record JournalBlock : Type 0 where
  pub old_data : List ℕ
  pub footer : JournalBlockFooter

-- The arrays have their sizes, and the fields fit their types, but for the two that `Serialize`
-- sets.
pub record JournalFits (b : JournalBlock) : Type 0 where
  pub data_size : length b.old_data ≡ k_block_data_size
  pub data_bytes : All IsByte b.old_data
  pub version_fits : b.footer.version < 256
  pub flag_fits : b.footer.flag < 256
  pub length_fits : b.footer.data_length < 256 ^ 2
  pub extent_id_fits : b.footer.extent_id < 256 ^ 8
  pub transaction_id_fits : b.footer.transaction_id < 256 ^ 8
  pub commited_flag_fits : b.footer.commited_flag < 256
  pub reserved_size : length b.footer.reserved ≡ 3
  pub reserved_bytes : All IsByte b.footer.reserved

module _ (host : Host) where
  -- The reserved bytes are appended twice.
  unfoldable pub journal_pieces : JournalBlock → List (List ℕ)
  journal_pieces b =
      b.old_data
      ∷ int_bytes host 4 b.footer.magic
      ∷ (b.footer.version ∷ [])
      ∷ (b.footer.flag ∷ [])
      ∷ int_bytes host 2 b.footer.data_length
      ∷ int_bytes host 8 b.footer.extent_id
      ∷ int_bytes host 8 b.footer.transaction_id
      ∷ (b.footer.commited_flag ∷ [])
      ∷ b.footer.reserved
      ∷ b.footer.reserved
      ∷ []

  -- What `Serialize` has in `result` when it comes to its assertion.
  unfoldable pub journal_bytes : JournalBlock → List ℕ
  unfolding journal_pieces
  journal_bytes b =
      let body =
        concat (journal_pieces (record b { footer = record b.footer { magic = k_block_magic } })) in
      body ++ int_bytes host 4 (crc32 body (length body))

  -- The block as `Serialize` leaves it, and its bytes.
  unfoldable pub serialize : JournalBlock → Option (JournalBlock × List ℕ)
  serialize b =
      let marked : JournalBlock = record b { footer = record b.footer { magic = k_block_magic } } in
      let body = concat (journal_pieces marked) in
      assert_block_size host
        (record b { footer = record marked.footer { crc = crc32 body (length body) } })
        (journal_bytes b)

  unfoldable pub steps : Step JournalBlock
  steps = do
    read_data k_block_data_size (λ bytes b. record b { old_data = bytes })
    read_int host 4 (λ v b. record b { footer = record b.footer { magic = v } })
    expect (λ b. b.footer.magic == k_block_magic) datanode_storage_block_magic_illegal
    read_byte (λ v b. record b { footer = record b.footer { version = v } })
    read_byte (λ v b. record b { footer = record b.footer { flag = v } })
    read_int host 2 (λ v b. record b { footer = record b.footer { data_length = v } })
    read_int host 8 (λ v b. record b { footer = record b.footer { extent_id = v } })
    read_int host 8 (λ v b. record b { footer = record b.footer { transaction_id = v } })
    read_byte (λ v b. record b { footer = record b.footer { commited_flag = v } })
    read_data 3 (λ bytes b. record b { footer = record b.footer { reserved = bytes } })
    read_int host 4 (λ v b. record b { footer = record b.footer { crc = v } })

  -- What it makes of the block `b`, and of the bytes.
  unfoldable pub deserialize : JournalBlock → List ℕ → ErrorCode × JournalBlock
  unfolding steps
  deserialize = deserialize_block steps (λ b. b.footer.crc)
