-- ===== src/ExtentMgr/Added.antt =====
-- The bitmap blocks on the device after an `AddExtent` that answers OK.
use pancake_store.Base.{◌+◌, ◌^◌, ◌≤◌, ◌<◌, ◌≡◌, sym, true, some, length, arith}
use mathlib.Core.Path.{subst}
use pancake_store.Comm.ErrorCode.{pancake_store_ok}
use pancake_store.Block.Host.{Host}
use pancake_store.Block.ExtentHeader.{ExtentHeaderBlock, HeaderFits}
use pancake_store.Block.ExtentHeader.Write.{length-header_bytes}
use pancake_store.Io.{File}
use pancake_store.ExtentMgr.{ExtentManager, Answer, add_extent, bitmap_block_device_offset}
use pancake_store.ExtentMgr.Answers.{HeaderFits-placed}
use pancake_store.ExtentMgr.Writes.{new_header, header_write, add_extent_writes}
use pancake_store.ExtentMgr.Mirrored.{
  AllMirror, Regions, Regions-moved, index_below, AllMirror-commit, AllMirror-extent,
}

module _ {S : Type 0} (host : Host) (file : File S) (m : ExtentManager) (device : S)
    (header : ExtentHeaderBlock) (a : Answer S) where
  -- The bitmap blocks on the device implement the bitmap in memory. Let the manager have a bit for
  -- each extent block, of which there are fewer than 2^31 and at least as many as bitmap blocks,
  -- one bitmap block at least, the bitmap blocks counted in 32 bits and in front of the extent
  -- blocks, and these within 64 bits. When each bitmap block on the device is read as the bits in
  -- memory, and `AddExtent` of a header whose fields are in range answers OK, then on the device
  -- that it leaves each bitmap block is read as the bits that it leaves in memory.
  pub add_extent-Mirrors :
      0 < m.bitmap_block_count
      → m.bitmap_block_count ≤ m.extent_block_count
      → length m.bitmap ≡ m.extent_block_count
      → m.extent_block_count < 2 ^ 31
      → Regions m
      → HeaderFits header
      → AllMirror host (file.content device) m
      → add_extent host file m device header ≡ some a
      → a.code ≡ pancake_store_ok
      → AllMirror host (file.content a.device) a.manager
  unfolding bitmap_block_device_offset
  add_extent-Mirrors positive enough len few r fits before e ok =
      let (i, w) =
        add_extent_writes host file m device header fits a positive enough len (omega (arith, few))
          e ok in
      let (small, below, clear, ok1, ok2, same) = w in
      let m1 : ExtentManager = record m { cursor = i + 1 } in
      let r1 : Regions m1 = Regions-moved m (i + 1) r in
      let inside : i < m.extent_block_count = omega arith in
      subst (λ (x : Answer S). AllMirror host (file.content x.device) x.manager) (sym same)
        (AllMirror-commit host file m1 (header_write host file m1 device header i fits small).1 r1
          enough i true len inside few (index_below i m.bitmap_block_count below) ok2
          (AllMirror-extent host file m1 device r1 enough i
            (new_header host file m1 device header i fits small) below
            (length-header_bytes host (record header { bitmap_ext_index = i })
              (HeaderFits-placed header i fits small))
            ok1 before))
