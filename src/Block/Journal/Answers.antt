-- ===== src/Block/Journal/Answers.antt =====
-- What `JournalBlock::Deserialize` makes of any bytes of the size of a block.
use pancake_store.Base.{
  ℕ, ◌^◌, ◌<◌, ◌≡◌, ◌≢◌, refl, sym, ap, ◌∙◌, List, [], ◌∷◌, ◌++◌, length, take, drop, ◌==◌, ==→eq,
  eq→==, ne→==, Bool-cases, inl, inr, All, IsByte, arith, length-append, take-append, drop-append,
}
use mathlib.Core.Path.{subst}
use mathlib.Core.List.{append-nil, append_assoc}
use pancake_store.Comm.ErrorCode.{
  ErrorCode, pancake_store_ok, datanode_storage_block_size_illegal,
  datanode_storage_block_magic_illegal, datanode_storage_block_crc_mismatch,
}
use pancake_store.Comm.Crc.{crc32}
use pancake_store.Comm.Crc.Prefix.{crc32-append}
use pancake_store.Block.Host.{Host}
use pancake_store.Block.Bytes.{k_block_size, k_block_data_size, k_block_magic, concat, of_be}
use pancake_store.Block.Step.{◌>>◌, int_bytes, expect, deserialize_block}
use pancake_store.Block.Step.Reads.{
  Reads, deserialize_block-Reads, length-int_bytes, read_data-Reads, read_int-Reads,
}
use pancake_store.Block.Footer.Parts.{cut, single, int_of}
use pancake_store.Block.Footer.Checked.{stored_magic, stored_crc, int_at}
use pancake_store.Block.Footer.Corrupted.{deserialize_block-mismatch}
use pancake_store.Block.Footer.Answers.{Reason}
use pancake_store.Block.Journal.{JournalBlock, JournalFits, steps, deserialize}
use pancake_store.Block.Journal.Laws.{stamped, layout_pieces, layout_bytes, steps-Reads}

rejoin :
    (p m v f l i t c r k : List ℕ) {bytes b0 b1 b2 b3 b4 b5 b6 b7 : List ℕ}
    → bytes ≡ p ++ b0
    → b0 ≡ m ++ b1
    → b1 ≡ v ++ b2
    → b2 ≡ f ++ b3
    → b3 ≡ l ++ b4
    → b4 ≡ i ++ b5
    → b5 ≡ t ++ b6
    → b6 ≡ c ++ b7
    → b7 ≡ r ++ k
    → bytes ≡ concat (p ∷ m ∷ v ∷ f ∷ l ∷ i ∷ t ∷ c ∷ r ∷ []) ++ k
rejoin p m v f l i t c r k e0 e1 e2 e3 e4 e5 e6 e7 e8 =
    rw (e0, e1, e2, e3, e4, e5, e6, e7, e8) (simp (append_assoc, append-nil))

record JournalParts (host : Host) (bytes : List ℕ) : Type 0 where
  block : JournalBlock
  fits : JournalFits block
  magic_fits : block.footer.magic < 256 ^ 4
  crc_fits : block.footer.crc < 256 ^ 4
  joined : bytes ≡ concat (layout_pieces host block) ++ int_bytes host 4 block.footer.crc

journal_parts :
    (host : Host) (bytes : List ℕ)
    → length bytes ≡ k_block_size
    → All IsByte bytes
    → JournalParts host bytes
unfolding layout_pieces
journal_parts host bytes e h =
    let c0 = cut 4064 32 bytes e h in
    let c1 = cut 4 28 c0.back c0.back_size c0.back_bytes in
    let c2 = cut 1 27 c1.back c1.back_size c1.back_bytes in
    let c3 = cut 1 26 c2.back c2.back_size c2.back_bytes in
    let c4 = cut 2 24 c3.back c3.back_size c3.back_bytes in
    let c5 = cut 8 16 c4.back c4.back_size c4.back_bytes in
    let c6 = cut 8 8 c5.back c5.back_size c5.back_bytes in
    let c7 = cut 1 7 c6.back c6.back_size c6.back_bytes in
    let c8 = cut 3 4 c7.back c7.back_size c7.back_bytes in
    let (magic, magic_eq, magic_lt) = int_of host 4 c1.front c1.front_size c1.front_bytes in
    let (version, version_eq, version_lt) = single c2.front c2.front_size c2.front_bytes in
    let (flag, flag_eq, flag_lt) = single c3.front c3.front_size c3.front_bytes in
    let (len, len_eq, len_lt) = int_of host 2 c4.front c4.front_size c4.front_bytes in
    let (id, id_eq, id_lt) = int_of host 8 c5.front c5.front_size c5.front_bytes in
    let (tr, tr_eq, tr_lt) = int_of host 8 c6.front c6.front_size c6.front_bytes in
    let (done, done_eq, done_lt) = single c7.front c7.front_size c7.front_bytes in
    let (crc, crc_eq, crc_lt) = int_of host 4 c8.back c8.back_size c8.back_bytes in
    record {
      block = record {
        old_data = c0.front;
        footer = record {
          magic = magic;
          version = version;
          flag = flag;
          data_length = len;
          extent_id = id;
          transaction_id = tr;
          commited_flag = done;
          reserved = c8.front;
          crc = crc;
        };
      };
      fits = record {
        data_size = c0.front_size;
        data_bytes = c0.front_bytes;
        version_fits = version_lt;
        flag_fits = flag_lt;
        length_fits = len_lt;
        extent_id_fits = id_lt;
        transaction_id_fits = tr_lt;
        commited_flag_fits = done_lt;
        reserved_size = c8.front_size;
        reserved_bytes = c8.front_bytes;
      };
      magic_fits = magic_lt;
      crc_fits = crc_lt;
      joined =
          rejoin c0.front (int_bytes host 4 magic) (version ∷ []) (flag ∷ []) (int_bytes host 2 len)
            (int_bytes host 8 id) (int_bytes host 8 tr) (done ∷ []) c8.front (int_bytes host 4 crc)
            c0.joined (c1.joined ∙ ap (λ (x : List ℕ). x ++ c1.back) magic_eq)
            (c2.joined ∙ ap (λ (x : List ℕ). x ++ c2.back) version_eq)
            (c3.joined ∙ ap (λ (x : List ℕ). x ++ c3.back) flag_eq)
            (c4.joined ∙ ap (λ (x : List ℕ). x ++ c4.back) len_eq)
            (c5.joined ∙ ap (λ (x : List ℕ). x ++ c5.back) id_eq)
            (c6.joined ∙ ap (λ (x : List ℕ). x ++ c6.back) tr_eq)
            (c7.joined ∙ ap (λ (x : List ℕ). x ++ c7.back) done_eq)
            (c8.joined ∙ ap (◌++◌ c8.front) crc_eq);
    }

module _ (host : Host) (b0 : JournalBlock) {bytes : List ℕ} (x : JournalParts host bytes) where
  abbrev j : JournalBlock
  j = x.block

  abbrev read_body : List ℕ
  read_body = concat (layout_pieces host j)

  abbrev tail : List ℕ
  tail = int_bytes host 4 j.footer.crc

  abbrev after_magic : List ℕ
  after_magic = concat (drop 2 (layout_pieces host j))

  length-read_body : length read_body ≡ 4092
  unfolding layout_pieces
  length-read_body = omega (
    arith,
    length-append {0},
    x.fits.data_size,
    x.fits.reserved_size,
    length-int_bytes host 4 j.footer.magic x.magic_fits,
    length-int_bytes host 2 j.footer.data_length x.fits.length_fits,
    length-int_bytes host 8 j.footer.extent_id x.fits.extent_id_fits,
    length-int_bytes host 8 j.footer.transaction_id x.fits.transaction_id_fits,
  )

  whole : length (read_body ++ tail) ≡ k_block_size
  whole = omega (
    arith,
    length-append read_body tail,
    length-read_body,
    length-int_bytes host 4 j.footer.crc x.crc_fits,
  )

  magic_first : bytes ≡ j.old_data ++ (int_bytes host 4 j.footer.magic ++ (after_magic ++ tail))
  unfolding layout_pieces
  magic_first =
      x.joined
      ∙ append_assoc j.old_data _ _
      ∙ ap (◌++◌ j.old_data) (append_assoc (int_bytes host 4 j.footer.magic) after_magic _)

  magic_there : stored_magic bytes ≡ j.footer.magic
  magic_there =
      ap stored_magic magic_first
      ∙ ap (λ l. of_be (take 4 l)) (drop-append k_block_data_size j.old_data _ x.fits.data_size)
      ∙ ap of_be (
          take-append 4 (int_bytes host 4 j.footer.magic) _
            (length-int_bytes host 4 j.footer.magic x.magic_fits))
      ∙ int_at host 4 j.footer.magic x.magic_fits

  crc_there : stored_crc bytes ≡ j.footer.crc
  crc_there =
      ap stored_crc x.joined
      ∙ ap of_be (drop-append 4092 read_body tail length-read_body)
      ∙ int_at host 4 j.footer.crc x.crc_fits

  crc_of_body : crc32 bytes 4092 ≡ crc32 read_body (length read_body)
  crc_of_body =
      ap (λ l. crc32 l 4092) x.joined
      ∙ ap (crc32 (read_body ++ tail)) (sym length-read_body)
      ∙ crc32-append read_body tail

  wrong_magic :
      j.footer.magic ≢ k_block_magic
      → (deserialize host b0 bytes).0 ≡ datanode_storage_block_magic_illegal
  unfolding deserialize deserialize_block steps expect
  wrong_magic ne =
      rw
        (
          eq→== (length bytes) k_block_size (ap length x.joined ∙ whole),
          magic_first,
          (read_data-Reads k_block_data_size
                (λ (l : List ℕ) (b : JournalBlock). record b { old_data = l }) b0 j.old_data
                x.fits.data_size).reads
              _,
          ◌>>◌,
          (read_int-Reads host 4
                (λ (v : ℕ) (b : JournalBlock). record b { footer = record b.footer { magic = v } })
                _ j.footer.magic x.magic_fits).reads
              _,
          ne→== j.footer.magic k_block_magic ne,
        )
        refl

  module _ (m : j.footer.magic ≡ k_block_magic) where
    same : stamped j ≡ j
    same = ap (λ v. record j { footer = record j.footer { magic = v } }) (sym m)

    right : Reads (steps host) b0 (read_body ++ tail) j
    right =
        subst
          (λ (g : JournalBlock). Reads (steps host) b0 (concat (layout_pieces host g) ++ tail) g)
          same (steps-Reads host j x.fits b0 j.footer.crc x.crc_fits)

    wrong_crc :
        crc32 read_body (length read_body) ≢ j.footer.crc
        → (deserialize host b0 bytes).0 ≡ datanode_storage_block_crc_mismatch
    unfolding deserialize
    wrong_crc ne =
        ap (λ l. (deserialize host b0 l).0) x.joined
        ∙ deserialize_block-mismatch (steps host) (λ b. b.footer.crc) b0 j read_body tail right
            (length-int_bytes host 4 j.footer.crc x.crc_fits) whole ne

    right_crc :
        crc32 read_body (length read_body) ≡ j.footer.crc
        → (deserialize host b0 bytes ≡ (pancake_store_ok, j)) × (layout_bytes host j ≡ bytes)
    unfolding deserialize layout_bytes
    right_crc e = (
      ap (deserialize host b0) (x.joined ∙ sym (append-nil (read_body ++ tail)))
          ∙ deserialize_block-Reads (steps host) (λ b. b.footer.crc) b0 j read_body tail [] right
              (length-int_bytes host 4 j.footer.crc x.crc_fits)
              (ap length (append-nil (read_body ++ tail)) ∙ whole) e,
      ap
            (λ (g : JournalBlock).
              let l = concat (layout_pieces host g) in l ++ int_bytes host 4 (crc32 l (length l)))
            same
          ∙ ap (λ v. read_body ++ int_bytes host 4 v) e
          ∙ sym x.joined,
    )

-- The block's fields fit their types, and laid out field by field they are these bytes.
abbrev pub IsJournal : Host → List ℕ → JournalBlock → Type 0
IsJournal host bytes j = JournalFits j × (layout_bytes host j ≡ bytes)

short :
    (host : Host) (b0 : JournalBlock) (bytes : List ℕ)
    → length bytes ≢ k_block_size
    → deserialize host b0 bytes ≡ (datanode_storage_block_size_illegal, b0)
unfolding deserialize deserialize_block
short host b0 bytes ne = rw (ne→== _ k_block_size ne) refl

pub deserialize_lem :
    (host : Host) (bytes : List ℕ) (b0 : JournalBlock)
    → All IsByte bytes
    → Reason b0
        (IsJournal host bytes)
        bytes
        (deserialize host b0 bytes).0
        (deserialize host b0 bytes).1
deserialize_lem host bytes b0 h =
    let answer = deserialize host b0 bytes in
    let R : ErrorCode × JournalBlock → Type 0 =
      λ a. Reason b0 (IsJournal host bytes) bytes a.0 a.1 in
    let at = λ (code : ErrorCode). Reason b0 (IsJournal host bytes) bytes code answer.1 in
    elim (Bool-cases (length bytes == k_block_size)) [
      | inr e ↦
          let ne : length bytes ≢ k_block_size = λ q. cc (e, eq→== _ _ q) in
          subst R (sym (short host b0 bytes ne)) (ne, refl)
      | inl e ↦
          let size = ==→eq _ _ e in
          let x = journal_parts host bytes size h in
          elim (Bool-cases (x.block.footer.magic == k_block_magic)) [
            | inr n ↦
                let ne : x.block.footer.magic ≢ k_block_magic = λ q. cc (n, eq→== _ _ q) in
                subst at (sym (wrong_magic host b0 x ne))
                  (size, λ q. ne (sym (magic_there host b0 x) ∙ q))
            | inl n ↦
                let m = ==→eq _ _ n in
                let body = concat (layout_pieces host x.block) in
                let magic = magic_there host b0 x ∙ m in
                elim (Bool-cases (crc32 body (length body) == x.block.footer.crc)) [
                  | inr d ↦
                      let ne : crc32 body (length body) ≢ x.block.footer.crc =
                        λ q. cc (d, eq→== _ _ q) in
                      subst at (sym (wrong_crc host b0 x m ne)) (
                        size,
                        magic,
                        λ q. ne (sym (crc_of_body host b0 x) ∙ q ∙ crc_there host b0 x),
                      )
                  | inl d ↦
                      let sum = ==→eq _ _ d in
                      let (read, laid) = right_crc host b0 x m sum in
                      subst R (sym read) (
                        size,
                        magic,
                        crc_of_body host b0 x ∙ sum ∙ sym (crc_there host b0 x),
                        (x.fits, laid),
                      )
                ]
          ]
    ]
