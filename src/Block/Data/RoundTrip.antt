-- ===== src/Block/Data/RoundTrip.antt =====
-- A DataBlock is read back from the bytes that it was written as.
use pancake_store.Base.{ℕ, refl}
use pancake_store.Block.Host.{Host}
use pancake_store.Block.Bytes.{k_block_data_size, k_block_magic}
use pancake_store.Block.Step.Reads.{IsStored, read_data-Reads}
use pancake_store.Block.Footer.Reads.{IsField}
use pancake_store.Block.Footer.Stored.{write_footer-IsStored}
use pancake_store.Block.Data.{DataBlock, DataFits, serialize, deserialize}

pub footer-IsField : IsField {B = DataBlock} (λ b. b.footer) (λ f b. record b { footer = f })
footer-IsField = record { get_put = λ f b. refl; put_put = λ f g b. refl; put_get = λ b. refl }

-- A block whose fields fit their types is written without an abort as 4096 bytes, and reading
-- these bytes succeeds and gives all its fields back, with the magic number and a checksum set,
-- whatever the reader's block held before.
pub deserialize-serialize_data :
    (host : Host) (b b0 : DataBlock)
    → DataFits b
    → (crc : ℕ) × IsStored
        (record b { footer = record b.footer { magic = k_block_magic; crc = crc } })
        (serialize host b)
        (deserialize host b0)
unfolding serialize deserialize
deserialize-serialize_data host b b0 fits =
    write_footer-IsStored host (λ x. x.footer) (λ f x. record x { footer = f }) footer-IsField _ b
      b0 (record b0 { block_data = b.block_data }) b.block_data
      (read_data-Reads k_block_data_size _ b0 b.block_data fits.data_size) (λ f. refl)
      fits.data_size fits.data_bytes fits.footer_fits
