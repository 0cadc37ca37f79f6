-- ===== src/Block/Bitmap/Corrupted.antt =====
-- A BitMapBlock with one byte changed on the way is refused.
use pancake_store.Base.{
  ℕ, ◌<◌, ◌≡◌, ◌≢◌, ap, sym, ◌∙◌, List, ◌∷◌, ◌++◌, length, length-append, arith, All, IsByte, some,
}
use mathlib.Core.Path.{subst}
use pancake_store.Comm.ErrorCode.{datanode_storage_block_crc_mismatch}
use pancake_store.Block.Host.{Host}
use pancake_store.Block.Bytes.{k_block_data_size}
use pancake_store.Block.Step.Reads.{read_data-Reads}
use pancake_store.Block.Footer.{write_footer}
use pancake_store.Block.Footer.Corrupted.{All-replaced, write_footer-corrupted}
use pancake_store.Block.Bitmap.{BitMapBlock, BitMapFits, serialize, deserialize}
use pancake_store.Block.Bitmap.RoundTrip.{footer-IsField}

-- Let a bitmap block whose fields are in the ranges of their types be written. If then one byte of
-- its bitmap is replaced by another, reading the bytes into any block answers CRC_MISMATCH.
pub deserialize-corrupted_bitmap :
    (host : Host) (b b0 : BitMapBlock) (front : List ℕ) (x y : ℕ) (back : List ℕ)
    → BitMapFits b
    → b.bitmap ≡ front ++ (x ∷ back)
    → y < 256
    → x ≢ y
    → (written : BitMapBlock) × (rest : List ℕ) × (serialize host b
        ≡ some (written, (front ++ (x ∷ back)) ++ rest))
      × ((deserialize host b0 ((front ++ (y ∷ back)) ++ rest)).0
          ≡ datanode_storage_block_crc_mismatch)
unfolding serialize deserialize
deserialize-corrupted_bitmap host b b0 front x y back fits e small ne =
    let size : length (front ++ (x ∷ back)) ≡ k_block_data_size =
      ap length (sym e) ∙ fits.data_size in
    let good : All IsByte (front ++ (x ∷ back)) = subst (All IsByte) e fits.data_bytes in
    let (written, rest, at, refused) =
      write_footer-corrupted host (λ z. z.footer) (λ f z. record z { footer = f }) footer-IsField _
        b b0 (record b0 { bitmap = front ++ (y ∷ back) }) front x y back
        (read_data-Reads k_block_data_size _ b0 (front ++ (y ∷ back)) (same_length front size)) size
        good (All-replaced front x y back good small) ne fits.footer_fits in
    (
      written,
      rest,
      ap (λ (d : List ℕ). write_footer host (λ z. z.footer) (λ f z. record z { footer = f }) d b) e
          ∙ at,
      refused,
    )
  where
    same_length :
        (l : List ℕ)
        → length (l ++ (x ∷ back)) ≡ k_block_data_size
        → length (l ++ (y ∷ back)) ≡ k_block_data_size
    same_length l h = omega (arith, h, length-append {0})
