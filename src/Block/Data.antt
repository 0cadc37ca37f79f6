-- ===== src/Block/Data.antt =====
-- `DataBlock` of pancake_block.{h,cc}: the data of an extent.
pub mod RoundTrip
pub mod Corrupted
use pancake_store.Base.{ℕ, ◌≡◌, List, length, All, IsByte, Option}
use pancake_store.Comm.ErrorCode.{ErrorCode}
use pancake_store.Block.Host.{Host}
use pancake_store.Block.Bytes.{k_block_data_size}
use pancake_store.Block.Step.{Step, ◌>>◌, read_data, deserialize_block}
use pancake_store.Block.Footer.{BlockFooter, FooterFits, read_footer, read_footer_crc, write_footer}

pub record DataBlock : Type 0 where
  pub block_data : List ℕ
  pub footer : BlockFooter

-- The array has its size and holds bytes, and the footer's fields fit their types.
pub record DataFits (b : DataBlock) : Type 0 where
  pub data_size : length b.block_data ≡ k_block_data_size
  pub data_bytes : All IsByte b.block_data
  pub footer_fits : FooterFits b.footer

module _ (host : Host) where
  unfoldable pub steps : Step DataBlock
  steps = do
    read_data k_block_data_size (λ bytes b. record b { block_data = bytes })
    read_footer host (λ b. b.footer) (λ f b. record b { footer = f })
    read_footer_crc host (λ b. b.footer) (λ f b. record b { footer = f })

  -- What it makes of the block `b`, and of the bytes.
  unfoldable pub deserialize : DataBlock → List ℕ → ErrorCode × DataBlock
  unfolding steps
  deserialize = deserialize_block steps (λ b. b.footer.crc)

  -- The block as `Serialize` leaves it, and its bytes.
  unfoldable pub serialize : DataBlock → Option (DataBlock × List ℕ)
  serialize b = write_footer host (λ x. x.footer) (λ f x. record x { footer = f }) b.block_data b
