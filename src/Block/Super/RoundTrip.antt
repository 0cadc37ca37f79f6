-- ===== src/Block/Super/RoundTrip.antt =====
-- A super block is read back from the bytes that it was written as, if its names fit a block.
use mathlib.Core.List.{append-nil, append_assoc}
use pancake_store.Base.{
  ℕ, ◌%◌, ◌^◌, ◌≤◌, ◌<◌, ◌≡◌, refl, ◌↔◌, ◌∙◌, sym, ap, List, [], ◌∷◌, ◌++◌, length, take, arith,
  length-append, take-append, drop-append, le→ltb, lt→ltb, ne→==, none, some, true, false,
  Bool-cases, inl, inr, ◌==◌,
}
use native.Mathlib.Decide.{dec_le}
use native.Mathlib.Nat.{mod-eq_of_lt}
use mathlib.Core.Option.{none-ne-some}
use pancake_store.Comm.ErrorCode.{pancake_store_ok}
use pancake_store.Block.Host.{Host}
use pancake_store.Block.Bytes.{k_block_size, k_block_magic, concat_last}
use pancake_store.Block.Step.{int_bytes, assert_block_size, deserialize_block}
use pancake_store.Block.Step.Reads.{
  Reads, >>-Reads, Reads-last, read_data-Reads, read_byte-Reads, read_int-Reads, expect-Reads,
  deserialize_block-Reads, length-int_bytes, assert_block_size-some, ntoh-int_bytes,
}
use pancake_store.Block.Super.{
  SuperBlock, SuperFits, super_pieces, serialize, super_steps, deserialize, read_string,
}
use pancake_store.Block.Super.Size.{
  names_length, stamped, body, checksum, checksum-lt, padding, written, written-eq, length-written,
  length-written_long,
}

-- An empty string on disk leaves the old value.
abbrev pub keep : List ℕ → List ℕ → List ℕ
keep old [] = old
keep old (x ∷ s) = x ∷ s

len_read :
    (host : Host) (n : ℕ) (rest : List ℕ)
    → n < 2 ^ 16
    → host.ntoh 2 (host.object_value (take 2 (int_bytes host 2 n ++ rest))) ≡ n
len_read host n rest h =
    rw (take-append 2 (int_bytes host 2 n) rest (length-int_bytes host 2 n h))
      (ntoh-int_bytes host 2 n h)

prefix_length :
    (host : Host) (n : ℕ) (rest : List ℕ) → n < 2 ^ 16 → 2 ≤ length (int_bytes host 2 n ++ rest)
prefix_length host n rest h =
    omega (arith, length-append (int_bytes host 2 n) rest, length-int_bytes host 2 n h)

read_string-Reads :
    {B : Type 0} (host : Host) (assign : List ℕ → B → B) (b : B) (old s : List ℕ)
    → assign old b ≡ b
    → length s < 2 ^ 16
    → Reads
        (read_string host assign)
        b
        (int_bytes host 2 (length s % 2 ^ 16) ++ s)
        (assign (keep old s) b)
unfolding read_string
read_string-Reads host assign b old [] e h = record {
  reads = λ rest. rw (
    append-nil,
    len_read host 0 rest h,
    le→ltb (length (int_bytes host 2 0 ++ rest)) 2 (prefix_length host 0 rest h),
    drop-append 2 (int_bytes host 2 0) rest (length-int_bytes host 2 0 h),
    e,
  );
}
read_string-Reads host assign b old (x ∷ s) e h = rw (mod-eq_of_lt h) (record {
  reads = λ rest.
      rw
        (
          append_assoc,
          len_read host (length (x ∷ s)) ((x ∷ s) ++ rest) h,
          le→ltb (length (int_bytes host 2 (length (x ∷ s)) ++ ((x ∷ s) ++ rest))) 2
              (prefix_length host (length (x ∷ s)) ((x ∷ s) ++ rest) h),
          drop-append 2 (int_bytes host 2 (length (x ∷ s))) ((x ∷ s) ++ rest)
              (length-int_bytes host 2 _ h),
          lt→ltb 0 (length (x ∷ s)) (omega arith),
        )
        ((read_data-Reads (length (x ∷ s)) assign b (x ∷ s) refl).reads rest);
})

module _ (host : Host) (b : SuperBlock) (fits : SuperFits b) (short : names_length b ≤ 3975) where
  -- What is in the block after the names were read over those of `b0`.
  abbrev named : SuperBlock → SuperBlock
  named b0 = record (stamped b) {
    device_uuid = keep b0.device_uuid b.device_uuid;
    device_path = keep b0.device_path b.device_path;
  }

  super_steps-Reads :
      (b0 : SuperBlock) (v : ℕ)
      → v < 256 ^ 4
      → Reads
          (super_steps host)
          b0
          (body host b fits ++ int_bytes host 4 v)
          (record (named b0) { crc = v })
  unfolding super_steps super_pieces
  super_steps-Reads b0 v h =
      rw (← concat_last (super_pieces host (stamped b)) (int_bytes host 4 v)) (
        >>-Reads (read_int-Reads host 4 _ b0 k_block_magic (omega arith)) (
          >>-Reads (expect-Reads _ _ _ refl) (
            >>-Reads (read_byte-Reads _ _ b.version) (
              >>-Reads (read_int-Reads host 8 _ _ b.device_id fits.device_id_fits) (
                >>-Reads
                  (read_string-Reads host _ _ b0.device_uuid b.device_uuid refl (omega arith))
                  (>>-Reads
                    (read_string-Reads host _ _ b0.device_path b.device_path refl (omega arith))
                    (>>-Reads (read_int-Reads host 8 _ _ b.create_time fits.create_time_fits) (
                      >>-Reads
                        (read_int-Reads host 8 _ _ b.device_capacity fits.device_capacity_fits)
                        (>>-Reads (read_int-Reads host 8 _ _ b.block_size fits.block_size_fits) (
                          >>-Reads
                            (read_int-Reads host 4 _ _ b.journal_block_count
                              fits.journal_block_count_fits)
                            (>>-Reads
                              (read_int-Reads host 8 _ _ b.extent_block_size
                                fits.extent_block_size_fits)
                              (>>-Reads
                                (read_int-Reads host 8 _ _ b.extent_block_count
                                  fits.extent_block_count_fits)
                                (>>-Reads
                                  (read_int-Reads host 8 _ _ b.extent_block_bitmap_start
                                    fits.extent_block_bitmap_start_fits)
                                  (>>-Reads
                                    (read_int-Reads host 8 _ _ b.extent_block_bitmap_end
                                      fits.extent_block_bitmap_end_fits)
                                    (>>-Reads
                                      (read_int-Reads host 8 _ _ b.trash_extent_block_bitmap_start
                                        fits.trash_extent_block_bitmap_start_fits)
                                      (>>-Reads
                                        (read_int-Reads host 8 _ _ b.trash_extent_block_bitmap_end
                                          fits.trash_extent_block_bitmap_end_fits)
                                        (>>-Reads
                                          (read_int-Reads host 8 _ _ b.journal_blocks_start
                                            fits.journal_blocks_start_fits)
                                          (>>-Reads
                                            (read_int-Reads host 8 _ _ b.journal_blocks_end
                                              fits.journal_blocks_end_fits)
                                            (>>-Reads
                                              (read_int-Reads host 8 _ _ b.extent_blocks_start
                                                fits.extent_blocks_start_fits)
                                              (Reads-last
                                                (read_int-Reads host 4 _ _ v h)))))))))))))))))))))

  -- A super block whose fields fit their types and whose uuid and path have at most 3975 bytes
  -- together is written without an abort as 4096 bytes. Reading these into any block `b0` succeeds
  -- and gives back every field, with the magic number and a checksum set; only an empty uuid or
  -- path is not read back: there the one of `b0` stays.
  pub deserialize-serialize_super :
      (b0 : SuperBlock)
      → (crc : ℕ) × (bytes : List ℕ) × (serialize host b
          ≡ some (record (stamped b) { crc = crc }, bytes))
        × (length bytes ≡ k_block_size)
        × (deserialize host b0 bytes ≡ (
          pancake_store_ok,
          record (stamped b) {
            device_uuid = keep b0.device_uuid b.device_uuid;
            device_path = keep b0.device_path b.device_path;
            crc = crc;
          },
        ))
  unfolding serialize deserialize
  deserialize-serialize_super b0 =
      let sum : ℕ = checksum host b fits in
      let small : sum < 256 ^ 4 = checksum-lt host b fits in
      (
        sum,
        written host b fits,
        assert_block_size-some _ _ _ (length-written host b fits short),
        length-written host b fits short,
        ap (deserialize_block (super_steps host) (λ x. x.crc) b0) (written-eq host b fits short)
            ∙ deserialize_block-Reads (super_steps host) (λ x. x.crc) b0
                (record (named b0) { crc = sum }) (body host b fits) (int_bytes host 4 sum)
                (padding host b fits) (super_steps-Reads b0 sum small)
                (length-int_bytes host 4 sum small)
                (ap length (sym (written-eq host b fits short)) ∙ length-written host b fits short)
                refl,
      )

-- With NDEBUG there is no abort.
assert_block_size_ndebug :
    {B : Type 0} (host : Host) (b : B) (bytes : List ℕ)
    → host.ndebug ≡ true
    → assert_block_size host b bytes ≡ some (b, bytes)
unfolding assert_block_size
assert_block_size_ndebug host b bytes d = elim (Bool-cases (length bytes == k_block_size)) [
  | inl e ↦ rw e refl
  | inr e ↦ rw (e, d) refl
]

-- A super block whose fields fit their types makes `Serialize` abort exactly when the build does not
-- define NDEBUG and its uuid and path have more than 3975 bytes together.
pub serialize-eq-none_iff :
    (host : Host) (b : SuperBlock)
    → SuperFits b
    → (serialize host b ≡ none) ↔ ((host.ndebug ≡ false) × (3975 < names_length b))
unfolding serialize assert_block_size
serialize-eq-none_iff host b fits = (
  λ e. (aborts e, long e),
  λ h. rw (ne→== _ k_block_size (length-written_long host b fits h.1), h.0) refl,
)
  where
    aborts : serialize host b ≡ none → host.ndebug ≡ false
    aborts e = elim (Bool-cases host.ndebug) [
      | inl d ↦ absurd (none-ne-some _ (sym e ∙ assert_block_size_ndebug host _ _ d))
      | inr d ↦ d
    ]

    long : serialize host b ≡ none → 3975 < names_length b
    long e = elim (dec_le (names_length b) 3975) [
      | yes h ↦ cc (
        e,
        assert_block_size-some host (record (stamped b) { crc = checksum host b fits })
            (written host b fits) (length-written host b fits h),
      )
      | no h ↦ omega arith
    ]
