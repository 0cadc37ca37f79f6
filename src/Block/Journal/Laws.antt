-- ===== src/Block/Journal/Laws.antt =====
-- A journal block as its class lays it out is read; as `Serialize` writes it, it is too long.
use mathlib.Core.List.{append-nil}
use pancake_store.Base.{
  ℕ, ◌^◌, ◌<◌, ◌≡◌, ◌≢◌, refl, sym, ap, ◌∙◌, List, [], ◌∷◌, ◌++◌, length, All, IsByte, All-append,
  none, some, true, false, Bool-cases, ◌⊎◌, inl, inr, arith, length-append, ne→==,
}
use pancake_store.Comm.ErrorCode.{pancake_store_ok, datanode_storage_block_size_illegal}
use pancake_store.Comm.Crc.{crc32}
use pancake_store.Comm.Crc.Detection.{crc32-lt}
use pancake_store.Block.Host.{Host}
use pancake_store.Block.Bytes.{k_block_size, k_block_data_size, k_block_magic, concat, concat_last}
use pancake_store.Block.Step.{int_bytes, deserialize_block, assert_block_size}
use pancake_store.Block.Step.Reads.{
  Reads, >>-Reads, Reads-last, read_data-Reads, read_byte-Reads, read_int-Reads, expect-Reads,
  deserialize_block-Reads, length-int_bytes, int_bytes-IsByte,
}
use pancake_store.Block.Journal.{
  JournalBlock, JournalFits, journal_pieces, journal_bytes, serialize, steps, deserialize,
}

abbrev pub stamped : JournalBlock → JournalBlock
stamped b = record b { footer = record b.footer { magic = k_block_magic } }

-- The fields of the two structs in their order, each once, up to the checksum.
unfoldable pub layout_pieces : Host → JournalBlock → List (List ℕ)
layout_pieces host b =
    b.old_data
    ∷ int_bytes host 4 b.footer.magic
    ∷ (b.footer.version ∷ [])
    ∷ (b.footer.flag ∷ [])
    ∷ int_bytes host 2 b.footer.data_length
    ∷ int_bytes host 8 b.footer.extent_id
    ∷ int_bytes host 8 b.footer.transaction_id
    ∷ (b.footer.commited_flag ∷ [])
    ∷ b.footer.reserved
    ∷ []

-- A block laid out field by field, with the checksum behind.
unfoldable pub layout_bytes : Host → JournalBlock → List ℕ
layout_bytes host b =
    let body = concat (layout_pieces host (stamped b)) in
    body ++ int_bytes host 4 (crc32 body (length body))

module _ (host : Host) (b : JournalBlock) (fits : JournalFits b) where
  abbrev written_body : List ℕ
  written_body = concat (journal_pieces host (stamped b))

  abbrev pub body : List ℕ
  body = concat (layout_pieces host (stamped b))

  length-written_body : length written_body ≡ 4095
  unfolding journal_pieces
  length-written_body = omega (
    arith,
    length-append {0},
    fits.data_size,
    fits.reserved_size,
    length-int_bytes host 4 k_block_magic (omega arith),
    length-int_bytes host 2 b.footer.data_length fits.length_fits,
    length-int_bytes host 8 b.footer.extent_id fits.extent_id_fits,
    length-int_bytes host 8 b.footer.transaction_id fits.transaction_id_fits,
  )

  pub length-body : length body ≡ 4092
  unfolding layout_pieces
  length-body = omega (
    arith,
    length-append {0},
    fits.data_size,
    fits.reserved_size,
    length-int_bytes host 4 k_block_magic (omega arith),
    length-int_bytes host 2 b.footer.data_length fits.length_fits,
    length-int_bytes host 8 b.footer.extent_id fits.extent_id_fits,
    length-int_bytes host 8 b.footer.transaction_id fits.transaction_id_fits,
  )

  bytes_after :
      (rest : List ℕ)
      → All IsByte rest
      → All IsByte (
          b.old_data
          ++ (int_bytes host 4 k_block_magic
              ++ (b.footer.version
                  ∷ b.footer.flag
                  ∷ (int_bytes host 2 b.footer.data_length
                      ++ (int_bytes host 8 b.footer.extent_id
                          ++ (int_bytes host 8 b.footer.transaction_id
                              ++ (b.footer.commited_flag ∷ (b.footer.reserved ++ rest))))))))
  bytes_after rest h = All-append IsByte _ _ fits.data_bytes (
      All-append IsByte _ _ (int_bytes-IsByte host 4 k_block_magic (omega arith)) (
        fits.version_fits,
        (
          fits.flag_fits,
          (All-append IsByte _ _ (int_bytes-IsByte host 2 b.footer.data_length fits.length_fits) (
              All-append IsByte _ _ (int_bytes-IsByte host 8 b.footer.extent_id fits.extent_id_fits)
                (All-append IsByte _ _
                  (int_bytes-IsByte host 8 b.footer.transaction_id fits.transaction_id_fits)
                  (fits.commited_flag_fits, All-append IsByte _ _ fits.reserved_bytes h)))),
        ),
      ))

  written_crc-lt : crc32 written_body (length written_body) < 256 ^ 4
  unfolding journal_pieces
  written_crc-lt =
      crc32-lt written_body (bytes_after _ (All-append IsByte _ _ fits.reserved_bytes tt))

  crc-lt : crc32 body (length body) < 256 ^ 4
  unfolding layout_pieces
  crc-lt = crc32-lt body (bytes_after _ tt)

  length-journal_bytes : length (journal_bytes host b) ≡ 4099
  unfolding journal_bytes
  length-journal_bytes = omega (
    arith,
    length-append written_body (int_bytes host 4 (crc32 written_body (length written_body))),
    length-written_body,
    length-int_bytes host 4 (crc32 written_body (length written_body)) written_crc-lt,
  )

  -- For a journal block whose fields fit their types `Serialize` has 4099 bytes when it comes to its
  -- assertion: without NDEBUG it aborts there, and with NDEBUG it returns these bytes. `Deserialize`
  -- refuses them for their size and leaves its block alone.
  pub serialize_journal_fails :
      (b0 : JournalBlock)
      → (((host.ndebug ≡ false) × (serialize host b ≡ none))
          ⊎ ((host.ndebug ≡ true)
              × ((left : JournalBlock) × (serialize host b ≡ some (left, journal_bytes host b)))))
        × (length (journal_bytes host b) ≡ 4099)
        × (deserialize host b0 (journal_bytes host b) ≡ (datanode_storage_block_size_illegal, b0))
  unfolding serialize assert_block_size deserialize deserialize_block
  serialize_journal_fails b0 =
      let wrong : length (journal_bytes host b) ≢ k_block_size =
        λ e. absurd (omega (arith, length-journal_bytes)) in
      let left : JournalBlock = record b {
        footer = record b.footer {
          magic = k_block_magic;
          crc = crc32 written_body (length written_body);
        };
      } in
      (
        elim (Bool-cases host.ndebug) [
          | inl d ↦
              inr (d, (left, rw (ne→== (length (journal_bytes host b)) k_block_size wrong, d) refl))
          | inr d ↦ inl (d, rw (ne→== (length (journal_bytes host b)) k_block_size wrong, d) refl)
        ],
        length-journal_bytes,
        rw (ne→== (length (journal_bytes host b)) k_block_size wrong),
      )

  pub steps-Reads :
      (b0 : JournalBlock) (v : ℕ)
      → v < 256 ^ 4
      → Reads
          (steps host)
          b0
          (body ++ int_bytes host 4 v)
          (record b { footer = record b.footer { magic = k_block_magic; crc = v } })
  unfolding steps layout_pieces
  steps-Reads b0 v h = rw (← concat_last (layout_pieces host (stamped b)) (int_bytes host 4 v)) (
      >>-Reads (read_data-Reads k_block_data_size _ b0 b.old_data fits.data_size) (
        >>-Reads (read_int-Reads host 4 _ _ k_block_magic (omega arith)) (
          >>-Reads (expect-Reads _ _ _ refl) (
            >>-Reads (read_byte-Reads _ _ b.footer.version) (
              >>-Reads (read_byte-Reads _ _ b.footer.flag) (
                >>-Reads (read_int-Reads host 2 _ _ b.footer.data_length fits.length_fits) (
                  >>-Reads (read_int-Reads host 8 _ _ b.footer.extent_id fits.extent_id_fits) (
                    >>-Reads
                      (read_int-Reads host 8 _ _ b.footer.transaction_id fits.transaction_id_fits)
                      (>>-Reads (read_byte-Reads _ _ b.footer.commited_flag) (
                        >>-Reads (read_data-Reads 3 _ _ b.footer.reserved fits.reserved_size)
                          (Reads-last (read_int-Reads host 4 _ _ v h))))))))))))

  -- `Deserialize` reads a block whose fields stand in the order of the structs, each once, with
  -- the checksum behind: it succeeds and gives all fields back, whatever the block held before.
  pub deserialize-layout_bytes :
      (b0 : JournalBlock)
      → (crc : ℕ) × (deserialize host b0 (layout_bytes host b) ≡ (
        pancake_store_ok,
        record b { footer = record b.footer { magic = k_block_magic; crc = crc } },
      ))
  unfolding deserialize layout_bytes
  deserialize-layout_bytes b0 =
      let sum : ℕ = crc32 body (length body) in
      let whole : List ℕ = body ++ int_bytes host 4 sum in
      let size : length whole ≡ k_block_size = omega (
        arith,
        length-append body (int_bytes host 4 sum),
        length-body,
        length-int_bytes host 4 sum crc-lt,
      ) in
      (
        sum,
        ap (deserialize_block (steps host) (λ x. x.footer.crc) b0) (sym (append-nil whole))
            ∙ deserialize_block-Reads (steps host) (λ x. x.footer.crc) b0 _ body
                (int_bytes host 4 sum) [] (steps-Reads b0 sum crc-lt)
                (length-int_bytes host 4 sum crc-lt) (ap length (append-nil whole) ∙ size) refl,
      )
