-- ===== src/Block/Footer/Answers.antt =====
-- What the readers of blocks with a footer answer, for any bytes.
use pancake_store.Base.{
  ℕ, ◌≡◌, ◌≢◌, inl, inr, refl, sym, ap, ◌∙◌, some, List, length, ◌==◌, ==→eq, eq→==, ne→==,
  Bool-cases, All, IsByte,
}
use mathlib.Core.Path.{subst}
use pancake_store.Comm.ErrorCode.{
  ErrorCode, pancake_store_ok, datanode_storage_block_size_illegal,
  datanode_storage_block_magic_illegal, datanode_storage_block_crc_mismatch,
}
use pancake_store.Comm.Crc.{crc32}
use pancake_store.Block.Host.{Host}
use pancake_store.Block.Bytes.{k_block_size, k_block_data_size, k_block_magic}
use pancake_store.Block.Step.{Step, deserialize_block}
use pancake_store.Block.Step.Reads.{Reads}
use pancake_store.Block.Footer.{BlockFooter, FooterFits, write_footer}
use pancake_store.Block.Footer.Reads.{IsField}
use pancake_store.Block.Footer.Stored.{with_footer}
use pancake_store.Block.Footer.Parts.{parts}
use pancake_store.Block.Footer.Checked.{
  stored_magic, stored_crc, body, magic_there, crc_there, crc_of_body, wrong_magic, wrong_crc,
  right_crc, written_again,
}

-- When the reader of a block `B` gives `answer` for the bytes. `Accepted` holds of the blocks that
-- the bytes stand for.
abbrev pub Reason : {B : Type 0} → B → (B → Type 0) → List ℕ → ErrorCode → B → Type 0
Reason b0 Accepted bytes pancake_store_ok b =
    (length bytes ≡ k_block_size)
    × (stored_magic bytes ≡ k_block_magic)
    × (crc32 bytes 4092 ≡ stored_crc bytes)
    × Accepted b
Reason b0 Accepted bytes datanode_storage_block_size_illegal b =
    (length bytes ≢ k_block_size) × (b ≡ b0)
Reason b0 Accepted bytes datanode_storage_block_magic_illegal b =
    (length bytes ≡ k_block_size) × (stored_magic bytes ≢ k_block_magic)
Reason b0 Accepted bytes datanode_storage_block_crc_mismatch b =
    (length bytes ≡ k_block_size)
    × (stored_magic bytes ≡ k_block_magic)
    × (crc32 bytes 4092 ≢ stored_crc bytes)
Reason b0 Accepted bytes _ b = ⊥

-- `make` is what the first steps make of the block's data, and `data_of` gives them back.
module _ {B : Type 0} (host : Host) (get : B → BlockFooter) (put : BlockFooter → B → B)
    (lens : IsField get put) (steps : Step B) (b0 : B) (make : List ℕ → B)
    (reads : (payload : List ℕ)
      → length payload ≡ k_block_data_size
      → Reads steps b0 payload (make payload))
    (data_of : B → List ℕ)
    (data_kept : (f : BlockFooter) (payload : List ℕ) → data_of (put f (make payload)) ≡ payload)
    (Fits : B → Type 0)
    (fits : (f : BlockFooter) (payload : List ℕ)
      → length payload ≡ k_block_data_size
      → All IsByte payload
      → FooterFits f
      → Fits (put f (make payload))) where
  -- The block is one whose fields fit their types, and `Serialize` makes the bytes of it.
  abbrev pub Stands : List ℕ → B → Type 0
  Stands bytes b = Fits b × (write_footer host get put (data_of b) b ≡ some (b, bytes))

  abbrev pub answer : List ℕ → ErrorCode × B
  answer = deserialize_block (with_footer host get put lens steps) (λ b. (get b).crc) b0

  short :
      (bytes : List ℕ)
      → length bytes ≢ k_block_size
      → answer bytes ≡ (datanode_storage_block_size_illegal, b0)
  unfolding deserialize_block
  short bytes ne = rw (ne→== _ k_block_size ne) refl

  pub deserialize_block-Reason :
      (bytes : List ℕ)
      → All IsByte bytes
      → Reason b0 (Stands bytes) bytes (answer bytes).0 (answer bytes).1
  deserialize_block-Reason bytes h =
      let R : ErrorCode × B → Type 0 = λ a. Reason b0 (Stands bytes) bytes a.0 a.1 in
      let at = λ (code : ErrorCode). Reason b0 (Stands bytes) bytes code (answer bytes).1 in
      elim (Bool-cases (length bytes == k_block_size)) [
        | inr e ↦
            let ne : length bytes ≢ k_block_size = λ q. cc (e, eq→== _ _ q) in
            subst R (sym (short bytes ne)) (ne, refl)
        | inl e ↦
            let size = ==→eq _ _ e in
            let x = parts host bytes size h in
            let r = reads x.payload x.payload_size in
            let c = make x.payload in
            elim (Bool-cases (x.footer.magic == k_block_magic)) [
              | inr n ↦
                  let ne : x.footer.magic ≢ k_block_magic = λ q. cc (n, eq→== _ _ q) in
                  subst at (sym (wrong_magic host get put lens steps b0 c x r ne))
                    (size, λ q. ne (sym (magic_there host x) ∙ q))
              | inl n ↦
                  let m = ==→eq _ _ n in
                  let magic = magic_there host x ∙ m in
                  elim (Bool-cases (crc32 (body host x) (length (body host x)) == x.footer.crc)) [
                    | inr d ↦
                        let ne : crc32 (body host x) (length (body host x)) ≢ x.footer.crc =
                          λ q. cc (d, eq→== _ _ q) in
                        subst at (sym (wrong_crc host get put lens steps b0 c x r m ne))
                          (size, magic, λ q. ne (sym (crc_of_body host x) ∙ q ∙ crc_there host x))
                    | inl d ↦
                        let sum = ==→eq _ _ d in
                        subst R (sym (right_crc host get put lens steps b0 c x r m sum)) (
                          size,
                          magic,
                          crc_of_body host x ∙ sum ∙ sym (crc_there host x),
                          (
                            fits x.footer x.payload x.payload_size x.payload_bytes x.footer_fits,
                            ap (λ l. write_footer host get put l (put x.footer c))
                                  (data_kept x.footer x.payload)
                                ∙ written_again host get put lens steps b0 c x r m sum,
                          ),
                        )
                  ]
            ]
      ]
