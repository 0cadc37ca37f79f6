-- ===== src/Examples.antt =====
-- A machine, a device and blocks on which the theorems are applied.
mod Checksums
mod Blocks
mod Extents
mod Placed
mod Mirrored
mod Rpc
mod Tool
mod Datanode
mod Format
use pancake_store.Base.{
  ℕ, false, ◌+◌, ◌%◌, ◌≡◌, refl, sym, Option, some, List, length, replicate, length-replicate,
  All-replicate, IsByte, arith,
}
use mathlib.Core.Option.{some-injective}
use pancake_store.Block.Host.{Host}
use pancake_store.Block.Bytes.{be_bytes, of_be, length-be_bytes, of_be-be_bytes}
use pancake_store.Block.Footer.{BlockFooter, FooterFits}
use pancake_store.Block.ExtentHeader.{ExtentHeaderBlock, HeaderFits}
use pancake_store.Io.{File, slice, overlay}

-- A machine that stores integers in network order.
abbrev pub big_endian : Host
big_endian = record {
  object_bytes = be_bytes;
  object_value = of_be;
  ndebug = false;
  hton = λ w v. v;
  ntoh = λ w v. v;
  hton_lem = λ w v h. refl;
  ntoh_lem = λ bytes h. refl;
  object_length = λ w v h. length-be_bytes w v;
  object_lem = of_be-be_bytes;
}

-- A device that never fails, as the function from offsets to bytes that it holds.
abbrev pub memory : File (ℕ → ℕ)
memory = record {
  dma_read_exactly = λ s off len. some (slice s off len);
  dma_write = λ s off bytes. (overlay s off bytes, some (length bytes));
  content = λ s. s;
  read_lem = λ s off len bytes e. sym (some-injective _ _ e);
  write_lem = λ s off bytes e i. refl;
}

abbrev pub empty_device : ℕ → ℕ
empty_device i = 0

abbrev pub a_footer : BlockFooter
a_footer = record {
  magic = 0;
  version = 1;
  flag = 0;
  data_length = 4064;
  extent_id = 12;
  reserved = replicate 12 0;
  crc = 0;
}

pub a_footer-FooterFits : FooterFits a_footer
a_footer-FooterFits = record {
  version_fits = omega arith;
  flag_fits = omega arith;
  length_fits = omega arith;
  extent_id_fits = omega arith;
  reserved_size = refl;
  reserved_bytes = All-replicate IsByte 12 0 (omega arith);
}

abbrev pub a_header : ExtentHeaderBlock
a_header = record {
  magic = 0;
  version = 1;
  shard_id = 2;
  data_shard_cnt = 4;
  code_shard_cnt = 2;
  device_id = 77;
  extent_id = 12;
  extent_capacity = 1000;
  extent_phy_used = 20;
  extent_logic_used = 10;
  redundant_type = 1;
  sealed = 0;
  is_migrating = 0;
  corrupted = 0;
  bitmap_ext_index = 0;
  reserved = replicate 4020 0;
  footer = a_footer;
}

pub a_header-HeaderFits : HeaderFits a_header
a_header-HeaderFits = record {
  version_fits = omega arith;
  shard_id_fits = omega arith;
  data_shard_cnt_fits = omega arith;
  code_shard_cnt_fits = omega arith;
  device_id_fits = omega arith;
  extent_id_fits = omega arith;
  extent_capacity_fits = omega arith;
  extent_phy_used_fits = omega arith;
  extent_logic_used_fits = omega arith;
  redundant_type_fits = omega arith;
  sealed_fits = omega arith;
  is_migrating_fits = omega arith;
  corrupted_fits = omega arith;
  bitmap_ext_index_fits = omega arith;
  reserved_size = length-replicate {A = ℕ} 4020 0;
  reserved_bytes = All-replicate IsByte 4020 0 (omega arith);
  footer_fits = a_footer-FooterFits;
}
