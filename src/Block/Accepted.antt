-- ===== src/Block/Accepted.antt =====
-- What the `Deserialize` of `DataBlock`, `BitMapBlock` and `JournalBlock` answer, for any bytes.
use pancake_store.Base.{ℕ, ◌≡◌, refl, List, some, All, IsByte}
use pancake_store.Block.Host.{Host}
use pancake_store.Block.Bytes.{k_block_data_size}
use pancake_store.Block.Step.Reads.{read_data-Reads}
use pancake_store.Block.Footer.Answers.{Reason, deserialize_block-Reason}
use pancake_store.Block.Data
use pancake_store.Block.Data.{DataBlock, DataFits}
use pancake_store.Block.Data.RoundTrip as DataRoundTrip
use pancake_store.Block.Bitmap
use pancake_store.Block.Bitmap.{BitMapBlock, BitMapFits}
use pancake_store.Block.Bitmap.RoundTrip as BitmapRoundTrip
use pancake_store.Block.Journal
use pancake_store.Block.Journal.{JournalBlock}
use pancake_store.Block.Journal.Answers.{IsJournal, deserialize_lem}

module _ (host : Host) (bytes : List ℕ) where
  -- The block's fields fit their types, and it is serialized as these bytes.
  abbrev pub IsData : DataBlock → Type 0
  IsData b = DataFits b × (Data.serialize host b ≡ some (b, bytes))

  abbrev pub IsBitMap : BitMapBlock → Type 0
  IsBitMap b = BitMapFits b × (Bitmap.serialize host b ≡ some (b, bytes))

  answers_of_block :
      (b0 : DataBlock)
      → All IsByte bytes
      → Reason b0 IsData bytes (Data.deserialize host b0 bytes).0 (Data.deserialize host b0 bytes).1
  unfolding Data.deserialize Data.serialize
  answers_of_block b0 h =
      deserialize_block-Reason host (λ b. b.footer) (λ f b. record b { footer = f })
        DataRoundTrip.footer-IsField _ b0 (λ payload. record b0 { block_data = payload })
        (read_data-Reads k_block_data_size _ b0) (λ b. b.block_data) (λ f payload. refl) DataFits
        (λ f payload size each fits. record {
          data_size = size;
          data_bytes = each;
          footer_fits = fits;
        })
        bytes h

  answers_of_bitmap :
      (b0 : BitMapBlock)
      → All IsByte bytes
      → Reason b0 IsBitMap bytes
          (Bitmap.deserialize host b0 bytes).0
          (Bitmap.deserialize host b0 bytes).1
  unfolding Bitmap.deserialize Bitmap.serialize
  answers_of_bitmap b0 h =
      deserialize_block-Reason host (λ b. b.footer) (λ f b. record b { footer = f })
        BitmapRoundTrip.footer-IsField _ b0 (λ payload. record b0 { bitmap = payload })
        (read_data-Reads k_block_data_size _ b0) (λ b. b.bitmap) (λ f payload. refl) BitMapFits
        (λ f payload size each fits. record {
          data_size = size;
          data_bytes = each;
          footer_fits = fits;
        })
        bytes h

  -- For bytes, each below 256 and of any number, `DataBlock::Deserialize` answers SIZE_ILLEGAL when
  -- they are not 4096, and then leaves its block as it was; MAGIC_ILLEGAL when they are 4096 and the
  -- four bytes behind the data are not the magic number; CRC_MISMATCH when they are, and the last
  -- four are not the checksum of all before them; OK when they are, and then the block that was read
  -- has its fields in the ranges of their types and is serialized as these same bytes. It answers
  -- nothing else. The same holds of `BitMapBlock::Deserialize`, and of `JournalBlock::Deserialize`
  -- with the bytes of the fields laid out one behind the other, which is no call of `Serialize`.
  pub deserialize_answers :
      (d : DataBlock) (b : BitMapBlock) (j : JournalBlock)
      → All IsByte bytes
      → Reason d IsData bytes (Data.deserialize host d bytes).0 (Data.deserialize host d bytes).1
        × Reason b IsBitMap bytes
            (Bitmap.deserialize host b bytes).0
            (Bitmap.deserialize host b bytes).1
        × Reason j
            (IsJournal host bytes)
            bytes
            (Journal.deserialize host j bytes).0
            (Journal.deserialize host j bytes).1
  deserialize_answers d b j h =
      (answers_of_block d h, answers_of_bitmap b h, deserialize_lem host bytes j h)
