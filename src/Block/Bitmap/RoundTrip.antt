-- ===== src/Block/Bitmap/RoundTrip.antt =====
-- A BitMapBlock is read back from the bytes that it was written as.
use pancake_store.Base.{ℕ, ◌≡◌, refl, sym, ap, ◌∙◌, List}
use mathlib.Core.Option.{some-injective}
use pancake_store.Comm.ErrorCode.{pancake_store_ok}
use pancake_store.Block.Host.{Host}
use pancake_store.Block.Bytes.{k_block_data_size, k_block_magic}
use pancake_store.Block.Step.Reads.{IsStored, read_data-Reads}
use pancake_store.Block.Footer.Reads.{IsField}
use pancake_store.Block.Footer.Stored.{write_footer-IsStored}
use pancake_store.Block.Bitmap.{BitMapBlock, BitMapFits, serialize, deserialize}

pub footer-IsField : IsField {B = BitMapBlock} (λ b. b.footer) (λ f b. record b { footer = f })
footer-IsField = record { get_put = λ f b. refl; put_put = λ f g b. refl; put_get = λ b. refl }

-- A block whose fields fit their types is written without an abort as 4096 bytes, and reading
-- these bytes succeeds and gives all its fields back, with the magic number and a checksum set,
-- whatever the reader's block held before.
pub deserialize-serialize_bitmap :
    (host : Host) (b b0 : BitMapBlock)
    → BitMapFits b
    → (crc : ℕ) × IsStored
        (record b { footer = record b.footer { magic = k_block_magic; crc = crc } })
        (serialize host b)
        (deserialize host b0)
unfolding serialize deserialize
deserialize-serialize_bitmap host b b0 fits =
    write_footer-IsStored host (λ x. x.footer) (λ f x. record x { footer = f }) footer-IsField _ b
      b0 (record b0 { bitmap = b.bitmap }) b.bitmap
      (read_data-Reads k_block_data_size _ b0 b.bitmap fits.data_size) (λ f. refl) fits.data_size
      fits.data_bytes fits.footer_fits

-- The bytes do not depend on the reader's block, so any reader gets the block from them.
pub deserialize_any :
    (host : Host) (b b0 tmp : BitMapBlock) (fits : BitMapFits b)
    → deserialize host tmp (deserialize-serialize_bitmap host b b0 fits).1.bytes ≡ (
      pancake_store_ok,
      record b {
        footer = record b.footer {
          magic = k_block_magic;
          crc = (deserialize-serialize_bitmap host b tmp fits).0;
        };
      },
    )
deserialize_any host b b0 tmp fits =
    let here = (deserialize-serialize_bitmap host b b0 fits).1 in
    let there = (deserialize-serialize_bitmap host b tmp fits).1 in
    ap (λ (x : BitMapBlock × List ℕ). deserialize host tmp x.1)
      (some-injective _ _ (sym here.written ∙ there.written))
    ∙ there.loaded
