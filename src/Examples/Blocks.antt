-- ===== src/Examples/Blocks.antt =====
-- The theorems on blocks at concrete blocks.
use pancake_store.Base.{
  ℕ, ◌<◌, ◌≡◌, ◌↔◌, refl, List, [], ◌∷◌, ◌++◌, length, replicate, length-replicate, All-replicate,
  IsByte, arith, some, none, true, false, ◌⊎◌,
}
use pancake_store.Comm.ErrorCode.{
  pancake_store_ok, datanode_storage_block_magic_illegal, datanode_storage_block_size_illegal,
  datanode_storage_block_crc_mismatch,
}
use pancake_store.Block.Bytes.{k_block_size, k_block_magic}
use pancake_store.Block.Step.Reads.{IsStored}
use pancake_store.Block.Data as Data
use pancake_store.Block.Data.{DataBlock}
use pancake_store.Block.Data.RoundTrip.{deserialize-serialize_data}
use pancake_store.Block.Bitmap as Bitmap
use pancake_store.Block.Bitmap.{BitMapBlock}
use pancake_store.Block.Bitmap.RoundTrip.{deserialize-serialize_bitmap}
use pancake_store.Block.Data.Corrupted.{deserialize-corrupted_data}
use pancake_store.Block.Footer.Answers.{Reason}
use pancake_store.Block.Accepted.{IsData, IsBitMap, deserialize_answers}
use pancake_store.Block.Journal.Answers.{IsJournal}
use pancake_store.Block.Journal as Journal
use pancake_store.Block.Journal.{JournalBlock, JournalFits, journal_bytes}
use pancake_store.Block.Journal.Laws.{
  layout_bytes, serialize_journal_fails, deserialize-layout_bytes,
}
use pancake_store.Block.Super as Super
use pancake_store.Block.Super.{SuperBlock, SuperFits}
use pancake_store.Block.Super.Size.{stamped, names_length}
use pancake_store.Block.Super.RoundTrip.{keep, deserialize-serialize_super, serialize-eq-none_iff}
use pancake_store.Block.ExtentHeader as ExtentHeader
use pancake_store.Block.ExtentHeader.{ExtentHeaderBlock}
use pancake_store.Block.ExtentHeader.Read.{deserialize-serialize_header}
use pancake_store.Examples.{
  big_endian, a_header, a_header-HeaderFits, a_footer, a_footer-FooterFits,
}

abbrev some_data : DataBlock
some_data = record { block_data = replicate 4064 7; footer = a_footer }

some_data-DataFits : Data.DataFits some_data
some_data-DataFits = record {
  data_size = length-replicate {A = ℕ} 4064 7;
  data_bytes = All-replicate IsByte 4064 7 (omega arith);
  footer_fits = a_footer-FooterFits;
}

deserialize-serialize_data_example :
    (crc : ℕ) × IsStored
      (record some_data { footer = record a_footer { magic = k_block_magic; crc = crc } })
      (Data.serialize big_endian some_data)
      (Data.deserialize big_endian some_data)
deserialize-serialize_data_example =
    deserialize-serialize_data big_endian some_data some_data some_data-DataFits

abbrev some_bits : BitMapBlock
some_bits = record { bitmap = replicate 4064 1; footer = a_footer }

some_bits-BitMapFits : Bitmap.BitMapFits some_bits
some_bits-BitMapFits = record {
  data_size = length-replicate {A = ℕ} 4064 1;
  data_bytes = All-replicate IsByte 4064 1 (omega arith);
  footer_fits = a_footer-FooterFits;
}

deserialize-serialize_bitmap_example :
    (crc : ℕ) × IsStored
      (record some_bits { footer = record a_footer { magic = k_block_magic; crc = crc } })
      (Bitmap.serialize big_endian some_bits)
      (Bitmap.deserialize big_endian some_bits)
deserialize-serialize_bitmap_example =
    deserialize-serialize_bitmap big_endian some_bits some_bits some_bits-BitMapFits

abbrev some_journal : JournalBlock
some_journal = record {
  old_data = replicate 4064 3;
  footer = record {
    magic = 0;
    version = 1;
    flag = 0;
    data_length = 4064;
    extent_id = 12;
    transaction_id = 99;
    commited_flag = 1;
    reserved = replicate 3 0;
    crc = 0;
  };
}

some_journal-JournalFits : JournalFits some_journal
some_journal-JournalFits = record {
  data_size = length-replicate {A = ℕ} 4064 3;
  data_bytes = All-replicate IsByte 4064 3 (omega arith);
  version_fits = omega arith;
  flag_fits = omega arith;
  length_fits = omega arith;
  extent_id_fits = omega arith;
  transaction_id_fits = omega arith;
  commited_flag_fits = omega arith;
  reserved_size = refl;
  reserved_bytes = All-replicate IsByte 3 0 (omega arith);
}

serialize_journal_fails_example :
    (((big_endian.ndebug ≡ false) × (Journal.serialize big_endian some_journal ≡ none))
      ⊎ ((big_endian.ndebug ≡ true)
          × ((left : JournalBlock) × (Journal.serialize big_endian some_journal
                ≡ some (left, journal_bytes big_endian some_journal)))))
    × (length (journal_bytes big_endian some_journal) ≡ 4099)
    × (Journal.deserialize big_endian some_journal (journal_bytes big_endian some_journal)
        ≡ (datanode_storage_block_size_illegal, some_journal))
serialize_journal_fails_example =
    serialize_journal_fails big_endian some_journal some_journal-JournalFits some_journal

deserialize-layout_bytes_example :
    (crc : ℕ) × (Journal.deserialize big_endian some_journal (layout_bytes big_endian some_journal)
      ≡ (
        pancake_store_ok,
        record some_journal {
          footer = record some_journal.footer { magic = k_block_magic; crc = crc };
        },
      ))
deserialize-layout_bytes_example =
    deserialize-layout_bytes big_endian some_journal some_journal-JournalFits some_journal

-- A super block with a uuid of three bytes and a path of `n`.
abbrev super_of : ℕ → SuperBlock
super_of n = record {
  magic = 0;
  version = 1;
  device_id = 5;
  device_uuid = 97 ∷ 98 ∷ 99 ∷ [];
  device_path = replicate n 47;
  create_time = 1000;
  device_capacity = 1000000;
  block_size = 4096;
  journal_block_count = 0;
  extent_block_size = 67108864;
  extent_block_count = 200;
  extent_block_bitmap_start = 6;
  extent_block_bitmap_end = 7;
  trash_extent_block_bitmap_start = 0;
  trash_extent_block_bitmap_end = 0;
  journal_blocks_start = 0;
  journal_blocks_end = 0;
  extent_blocks_start = 16384;
  crc = 0;
}

super_of-SuperFits : (n : ℕ) → SuperFits (super_of n)
super_of-SuperFits n = record {
  uuid_bytes = (omega arith, (omega arith, (omega arith, tt)));
  path_bytes = All-replicate IsByte n 47 (omega arith);
  version_fits = omega arith;
  device_id_fits = omega arith;
  create_time_fits = omega arith;
  device_capacity_fits = omega arith;
  block_size_fits = omega arith;
  journal_block_count_fits = omega arith;
  extent_block_size_fits = omega arith;
  extent_block_count_fits = omega arith;
  extent_block_bitmap_start_fits = omega arith;
  extent_block_bitmap_end_fits = omega arith;
  trash_extent_block_bitmap_start_fits = omega arith;
  trash_extent_block_bitmap_end_fits = omega arith;
  journal_blocks_start_fits = omega arith;
  journal_blocks_end_fits = omega arith;
  extent_blocks_start_fits = omega arith;
}

deserialize-serialize_super_example :
    (crc : ℕ) × (bytes : List ℕ) × (Super.serialize big_endian (super_of 8)
      ≡ some (record (stamped (super_of 8)) { crc = crc }, bytes))
    × (length bytes ≡ k_block_size)
    × (Super.deserialize big_endian (super_of 2) bytes ≡ (
      pancake_store_ok,
      record (stamped (super_of 8)) {
        device_uuid = keep (super_of 2).device_uuid (super_of 8).device_uuid;
        device_path = keep (super_of 2).device_path (super_of 8).device_path;
        crc = crc;
      },
    ))
deserialize-serialize_super_example =
    deserialize-serialize_super big_endian (super_of 8) (super_of-SuperFits 8) (omega arith)
      (super_of 2)

serialize-eq-none_iff_example :
    (Super.serialize big_endian (super_of 3973) ≡ none)
    ↔ ((big_endian.ndebug ≡ false) × (3975 < names_length (super_of 3973)))
serialize-eq-none_iff_example =
    serialize-eq-none_iff big_endian (super_of 3973) (super_of-SuperFits 3973)

deserialize-serialize_header_example :
    (x : ExtentHeaderBlock × List ℕ) × (ExtentHeader.serialize big_endian a_header ≡ some x)
    × ((ExtentHeader.deserialize big_endian a_header x.1).0 ≡ datanode_storage_block_magic_illegal)
deserialize-serialize_header_example =
    deserialize-serialize_header big_endian a_header a_header-HeaderFits a_header

deserialize-corrupted_data_example :
    (written : DataBlock) × (rest : List ℕ) × (Data.serialize big_endian some_data
      ≡ some (written, ((7 ∷ []) ++ (7 ∷ replicate 4062 7)) ++ rest))
    × ((Data.deserialize big_endian some_data (((7 ∷ []) ++ (200 ∷ replicate 4062 7)) ++ rest)).0
        ≡ datanode_storage_block_crc_mismatch)
deserialize-corrupted_data_example =
    deserialize-corrupted_data big_endian some_data some_data (7 ∷ []) 7 200 (replicate 4062 7)
      some_data-DataFits refl (omega arith) (omega arith)

-- Bytes that no block has.
abbrev wrong_bytes : List ℕ
wrong_bytes = replicate 4096 5

deserialize_answers_example :
    Reason some_data
      (IsData big_endian wrong_bytes)
      wrong_bytes
      (Data.deserialize big_endian some_data wrong_bytes).0
      (Data.deserialize big_endian some_data wrong_bytes).1
    × Reason some_bits
        (IsBitMap big_endian wrong_bytes)
        wrong_bytes
        (Bitmap.deserialize big_endian some_bits wrong_bytes).0
        (Bitmap.deserialize big_endian some_bits wrong_bytes).1
    × Reason some_journal
        (IsJournal big_endian wrong_bytes)
        wrong_bytes
        (Journal.deserialize big_endian some_journal wrong_bytes).0
        (Journal.deserialize big_endian some_journal wrong_bytes).1
deserialize_answers_example =
    deserialize_answers big_endian wrong_bytes some_data some_bits some_journal
      (All-replicate IsByte 4096 5 (omega arith))
