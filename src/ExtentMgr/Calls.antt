-- ===== src/ExtentMgr/Calls.antt =====
-- The device and the memory through any calls of `AddExtent` and `DelExtent`.
use pancake_store.Base.{
  ℕ, ◌+◌, ◌^◌, ◌≤◌, ◌<◌, ◌≡◌, ◌⊎◌, inl, inr, sym, ap, ◌∙◌, true, false, some, arith,
}
use mathlib.Core.Bool.{true≢false}
use mathlib.Core.Path.{subst}
use pancake_store.Comm.ErrorCode.{pancake_store_ok, is_not_ok}
use pancake_store.Block.Host.{Host}
use pancake_store.Block.ExtentHeader.{ExtentHeaderBlock, HeaderFits}
use pancake_store.Io.{File}
use pancake_store.ExtentMgr.{
  ExtentManager, Answer, add_extent, del_extent, bitmap_index, bitmap_block_device_offset,
}
use pancake_store.ExtentMgr.Init.{IsValid}
use pancake_store.ExtentMgr.Reach.{Keeps, Keeps-IsValid, add_extent-Keeps, del_extent-Keeps}
use pancake_store.ExtentMgr.AddExtent.{add_extent_lem}
use pancake_store.ExtentMgr.Deleted.{del_extent_lem}
use pancake_store.ExtentMgr.Mirrored.{AllMirror, Regions, AllMirror-commit}
use pancake_store.ExtentMgr.Added.{add_extent-Mirrors}

-- A valid manager, with at least one bitmap block and as many extent blocks, of which there are
-- fewer than 2^31, and the bitmap blocks in front of the extent blocks.
pub record Laid (m : ExtentManager) : Type 0 where
  pub valid : IsValid m
  pub positive : 0 < m.bitmap_block_count
  pub enough : m.bitmap_block_count ≤ m.extent_block_count
  pub few : m.extent_block_count < 2 ^ 31
  pub regions : Regions m

Keeps-Laid : (m m' : ExtentManager) → Keeps m m' → Laid m → Laid m'
Keeps-Laid m m' k l = record {
  valid = Keeps-IsValid m m' k l.valid;
  positive = omega (arith, l.positive, k.blocks_kept);
  enough = omega (arith, l.enough, k.blocks_kept, k.extents_kept);
  few = omega (arith, l.few, k.extents_kept);
  regions = record {
    bitmap_within = rw (k.blocks_kept) l.regions.bitmap_within;
    bitmap_before =
        rw (k.blocks_kept, k.offset_kept, k.extents_offset_kept) l.regions.bitmap_before;
    end_within = rw (k.extents_kept, k.size_kept, k.extents_offset_kept) l.regions.end_within;
  };
}

index_inside :
    (m : ExtentManager) (i : ℕ)
    → IsValid m
    → i < m.extent_block_count
    → bitmap_index i < m.bitmap_block_count
unfolding bitmap_index
index_inside m i v h = omega (arith, v.bitmap_room, h)

module _ {S : Type 0} (host : Host) (file : File S) where
  -- An answer with OK, or an error when nothing was written.
  abbrev pub IsSettled : S → Answer S → Type 0
  IsSettled device a =
      (a.code ≡ pancake_store_ok) ⊎ ((is_not_ok a.code ≡ true) × (a.device ≡ device))

  AllMirror-moved :
      (m : ExtentManager) (device : S) (c : ℕ)
      → AllMirror host (file.content device) m
      → AllMirror host (file.content device) (record m { cursor = c })
  unfolding bitmap_block_device_offset
  AllMirror-moved m device c h = h

  refused_moved :
      (m : ExtentManager) (device : S) (header : ExtentHeaderBlock) (a : Answer S)
      → Laid m
      → add_extent host file m device header ≡ some a
      → is_not_ok a.code ≡ true
      → (c : ℕ) × (a.manager ≡ record m { cursor = c })
  refused_moved m device header a l e bad =
      elim (add_extent_lem host file m device header a l.positive l.enough l.valid.bitmap_length
        e) [
          | inl t ↦ (m.cursor, ap (λ (r : Answer S). r.manager) t.1)
          | inr (inl t) ↦ (m.cursor, ap (λ (r : Answer S). r.manager) t.1)
          | inr (inr (inl t)) ↦ (t.1.0, ap (λ (r : Answer S). r.manager) t.1.1)
          | inr (inr (inr t)) ↦
              let (i, below, clear, places) = t.1 in
              elim places.0 [
                | inl q ↦ absurd (true≢false (sym bad ∙ ap is_not_ok q.0))
                | inr q ↦ (i + 1, q.1)
              ]
        ]

  -- One call keeps the bitmap blocks on the device those of the bitmap in memory.
  added_lem :
      (m : ExtentManager) (device : S) (header : ExtentHeaderBlock) (a : Answer S)
      → Laid m
      → AllMirror host (file.content device) m
      → HeaderFits header
      → add_extent host file m device header ≡ some a
      → IsSettled device a
      → AllMirror host (file.content a.device) a.manager
  added_lem m device header a l before fits e (inl ok) =
      add_extent-Mirrors host file m device header a l.positive l.enough l.valid.bitmap_length l.few
        l.regions fits before e ok
  added_lem m device header a l before fits e (inr (bad, same)) =
      let (c, moved) = refused_moved m device header a l e bad in
      subst (λ (x : ExtentManager). AllMirror host (file.content a.device) x) (sym moved)
        (AllMirror-moved m a.device c
          (subst (λ (d : S). AllMirror host (file.content d) m) (sym same) before))

  deleted_lem :
      (m : ExtentManager) (device : S) (header tmp : ExtentHeaderBlock) (a : Answer S)
      → Laid m
      → AllMirror host (file.content device) m
      → del_extent host file m device header tmp ≡ some a
      → IsSettled device a
      → AllMirror host (file.content a.device) a.manager
  deleted_lem m device header tmp a l before e settled =
      let After : Answer S → Type 0 = λ r. AllMirror host (file.content r.device) r.manager in
      elim (del_extent_lem host file m device header tmp a e) [
        | inl t ↦ subst After (sym t.1) before
        | inr (inl t) ↦ subst After (sym t.2) before
        | inr (inr (inl t)) ↦ subst After (sym t.3) before
        | inr (inr (inr (_, _, _, _, inl t))) ↦
            let inside : header.bitmap_ext_index < m.extent_block_count =
              omega (arith, t.1, l.valid.bitmap_length) in
            subst After (sym t.3) (
              AllMirror-commit host file m device l.regions l.enough header.bitmap_ext_index false
                l.valid.bitmap_length inside l.few
                (index_inside m header.bitmap_ext_index l.valid inside) t.2 before)
        | inr (inr (inr (_, _, _, _, inr t))) ↦ elim settled [
          | inl ok ↦ absurd (true≢false (sym t.0 ∙ ap is_not_ok ok))
          | inr q ↦
              subst (λ (x : ExtentManager). AllMirror host (file.content a.device) x) (sym t.1)
                (subst (λ (d : S). AllMirror host (file.content d) m) (sym q.1) before)
        ]
      ]

  -- From a manager and a device, any calls of `AddExtent`, with headers whose fields are in range,
  -- and of `DelExtent`, with any headers, each on what the one before has left, that answer OK or
  -- an error before anything is written.
  pub data Calls (m0 : ExtentManager) (d0 : S) : ExtentManager → S → Type 0 where
    not_called : Calls m0 d0 m0 d0
    added :
        {m : ExtentManager} {device : S} (header : ExtentHeaderBlock) (a : Answer S)
        → Calls m0 d0 m device
        → HeaderFits header
        → add_extent host file m device header ≡ some a
        → IsSettled device a
        → Calls m0 d0 a.manager a.device
    deleted :
        {m : ExtentManager} {device : S} (header tmp : ExtentHeaderBlock) (a : Answer S)
        → Calls m0 d0 m device
        → del_extent host file m device header tmp ≡ some a
        → IsSettled device a
        → Calls m0 d0 a.manager a.device

  -- The bitmap blocks on the device implement the bitmap in memory. Let a manager be valid, with at
  -- least one bitmap block and no fewer extent blocks, fewer than 2^31 of them, the bitmap blocks
  -- counted in 32 bits and in front of the extent blocks, and these within 64 bits. When each
  -- bitmap block on the device is read as the bits in memory, this is still so, and the manager is
  -- still such a one, after any calls of `AddExtent`, with headers whose fields are in range, and
  -- `DelExtent` that answer OK, or an error without having changed the device.
  pub Calls-Mirrors :
      (m0 : ExtentManager) (d0 : S) (m : ExtentManager) (device : S)
      → Laid m0
      → AllMirror host (file.content d0) m0
      → Calls m0 d0 m device
      → Laid m × AllMirror host (file.content device) m
  Calls-Mirrors m0 d0 m device l before not_called = (l, before)
  Calls-Mirrors m0 d0 m device l before (added {m = m'} {device = d'} header a c fits e s) =
      let (l', so_far) = Calls-Mirrors m0 d0 m' d' l before c in
      (
        Keeps-Laid m' a.manager (add_extent-Keeps host file m' d' header a e) l',
        added_lem m' d' header a l' so_far fits e s,
      )
  Calls-Mirrors m0 d0 m device l before (deleted {m = m'} {device = d'} header tmp a c e s) =
      let (l', so_far) = Calls-Mirrors m0 d0 m' d' l before c in
      (
        Keeps-Laid m' a.manager (del_extent-Keeps host file m' d' header tmp a e) l',
        deleted_lem m' d' header tmp a l' so_far e s,
      )
