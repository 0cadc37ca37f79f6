-- ===== src/ExtentMgr/Delete.antt =====
-- What `DelExtent` does with an extent header that `AddExtent` has written.
use pancake_store.Base.{ℕ, ◌≡◌, refl, sym, ap, ◌∙◌, true, some, List, [], Bool-cases, inl, inr}
use mathlib.Core.Option.{some-injective}
use pancake_store.Comm.ErrorCode.{ErrorCode, datanode_storage_block_magic_illegal, is_not_ok, ok_of}
use pancake_store.Block.Host.{Host}
use pancake_store.Block.Bytes.{k_block_size}
use pancake_store.Block.ExtentHeader
use pancake_store.Block.ExtentHeader.{ExtentHeaderBlock, HeaderFits}
use pancake_store.Block.ExtentHeader.Read.{deserialize-serialize_header}
use pancake_store.Io.{File, slice, read_at}
use pancake_store.Io.Laws.{read_at_loads}
use pancake_store.ExtentMgr.{ExtentManager, extent_block_device_offset, del_extent}

module _ {S : Type 0} (host : Host) (file : File S) (m : ExtentManager) (device : S)
    (header tmp : ExtentHeaderBlock) where
  -- Let the block at the header's index hold what `Serialize` makes of some extent header whose
  -- fields are in the ranges of their types. Then `DelExtent` answers an error, and changes neither
  -- the manager, the device nor the header.
  pub del_extent_refuses :
      (b : ExtentHeaderBlock) (x : ExtentHeaderBlock × List ℕ)
      → HeaderFits b
      → ExtentHeader.serialize host b ≡ some x
      → slice
          (file.content device)
          (extent_block_device_offset m header.bitmap_ext_index)
          k_block_size
        ≡ x.1
      → (c : ErrorCode) × (is_not_ok c ≡ true)
        × (del_extent host file m device header tmp
            ≡ some (record { code = c; manager = m; device = device; header = header }))
  unfolding del_extent
  del_extent_refuses b x fits written there =
      let off = extent_block_device_offset m header.bitmap_ext_index in
      let read = read_at file device off k_block_size [] in
      let parsed = ExtentHeader.deserialize host tmp read.1 in
      elim (Bool-cases (is_not_ok read.0)) [
        | inl r ↦ (read.0, r, rw (r, del_extent) refl)
        | inr r ↦
            let (y, made, refused) = deserialize-serialize_header host b fits tmp in
            let same : read.1 ≡ y.1 =
              read_at_loads file device off k_block_size [] (ok_of read.0 r)
              ∙ there
              ∙ ap (λ (z : ExtentHeaderBlock × List ℕ). z.1)
                  (some-injective _ _ (sym written ∙ made)) in
            let code : parsed.0 ≡ datanode_storage_block_magic_illegal =
              ap (λ bytes. (ExtentHeader.deserialize host tmp bytes).0) same ∙ refused in
            let bad : is_not_ok parsed.0 ≡ true = ap is_not_ok code in
            (parsed.0, bad, rw (r, bad, del_extent) refl)
      ]
