-- ===== src/Block/Step/Reads.antt =====
-- A step reads back what was appended for it, whatever bytes follow.
use mathlib.Core.List.{append-nil, append_assoc}
use pancake_store.Base.{
  ℕ, ◌-◌, ◌^◌, ◌<◌, ◌≡◌, refl, ap, ◌∙◌, Bool, true, Option, some, List, [], ◌∷◌, ◌++◌, length,
  arith, IsByte, All, length-append, take-append, drop-append, le→ltb, eq→==,
}
use pancake_store.Comm.ErrorCode.{ErrorCode, pancake_store_ok}
use pancake_store.Comm.Crc.{crc32}
use pancake_store.Comm.Crc.Prefix.{crc32-append}
use pancake_store.Block.Host.{Host}
use pancake_store.Block.Bytes.{
  k_block_size, be_bytes, of_be, length-be_bytes, be_bytes-IsByte, of_be-be_bytes,
}
use pancake_store.Block.Step.{
  go, Step, ◌>>◌, read_data, read_byte, read_int, byte_value, expect, deserialize_block, int_bytes,
  assert_block_size,
}

-- From `b`, the step `m` takes exactly `bytes` off what is left, and leaves `c`.
pub record Reads {B : Type 0} (m : Step B) (b : B) (bytes : List ℕ) (c : B) : Type 0 where
  pub reads : (rest : List ℕ) → m b (bytes ++ rest) ≡ go c rest

pub >>-Reads :
    {B : Type 0} {m k : Step B} {b c d : B} {xs ys : List ℕ}
    → Reads m b xs c
    → Reads k c ys d
    → Reads (m >> k) b (xs ++ ys) d
>>-Reads {m} {k} {b} {c} {d} {xs} {ys} p q = record {
  reads = λ rest. rw (append_assoc, p.reads, ◌>>◌) (q.reads rest);
}

-- The last piece of a `concat`.
pub Reads-last :
    {B : Type 0} {m : Step B} {b c : B} {xs : List ℕ} → Reads m b xs c → Reads m b (xs ++ []) c
Reads-last p = rw append-nil p

pub read_data-Reads :
    {B : Type 0} (size : ℕ) (assign : List ℕ → B → B) (b : B) (bytes : List ℕ)
    → length bytes ≡ size
    → Reads (read_data size assign) b bytes (assign bytes b)
unfolding read_data
read_data-Reads size assign b bytes h = record {
  reads = λ rest. rw (
    le→ltb (length (bytes ++ rest)) size (omega (arith, length-append bytes rest)),
    take-append size bytes rest h,
    drop-append size bytes rest h,
  );
}

pub read_byte-Reads :
    {B : Type 0} (assign : ℕ → B → B) (b : B) (v : ℕ)
    → Reads (read_byte assign) b (v ∷ []) (assign v b)
unfolding read_byte
read_byte-Reads assign b v = read_data-Reads 1 (λ bytes. assign (byte_value bytes)) b (v ∷ []) refl

pub expect-Reads :
    {B : Type 0} (test : B → Bool) (error : ErrorCode) (b : B)
    → test b ≡ true
    → Reads (expect test error) b [] b
unfolding expect
expect-Reads test error b h = record { reads = λ rest. rw h }

module _ (host : Host) where
  pub int_bytes-be : (w v : ℕ) → v < 256 ^ w → int_bytes host w v ≡ be_bytes w v
  unfolding int_bytes
  int_bytes-be w v h = host.hton_lem w v h

  pub length-int_bytes : (w v : ℕ) → v < 256 ^ w → length (int_bytes host w v) ≡ w
  length-int_bytes w v h = rw (int_bytes-be w v h) (length-be_bytes w v)

  pub ntoh-of_be :
      (w : ℕ) (bytes : List ℕ)
      → length bytes ≡ w
      → All IsByte bytes
      → host.ntoh w (host.object_value bytes) ≡ of_be bytes
  ntoh-of_be w bytes e h = rw (← e) (host.ntoh_lem bytes h)

  pub ntoh-int_bytes :
      (w v : ℕ) → v < 256 ^ w → host.ntoh w (host.object_value (int_bytes host w v)) ≡ v
  ntoh-int_bytes w v h =
      ntoh-of_be w (int_bytes host w v) (length-int_bytes w v h)
        (rw (int_bytes-be w v h) (be_bytes-IsByte w v))
      ∙ ap of_be (int_bytes-be w v h)
      ∙ of_be-be_bytes w v h

  pub read_int-Reads :
      {B : Type 0} (w : ℕ) (assign : ℕ → B → B) (b : B) (v : ℕ)
      → v < 256 ^ w
      → Reads (read_int host w assign) b (int_bytes host w v) (assign v b)
  unfolding read_int
  read_int-Reads w assign b v h = record {
    reads = λ rest.
        (read_data-Reads w (λ bytes. assign (host.ntoh w (host.object_value bytes))) b
            (int_bytes host w v) (length-int_bytes w v h)).reads
          rest
        ∙ ap (λ (t : ℕ). go (assign t b) rest) (ntoh-int_bytes w v h);
  }

  pub int_bytes-IsByte : (w v : ℕ) → v < 256 ^ w → All IsByte (int_bytes host w v)
  int_bytes-IsByte w v h = rw (int_bytes-be w v h) (be_bytes-IsByte w v)

-- A block whose reads take the bytes `body`, then a checksum of four bytes that is the one of
-- `body`, is accepted, whatever pads it to the size of a block.
pub deserialize_block-Reads :
    {B : Type 0} (steps : Step B) (crc_of : B → ℕ) (b c : B) (body tail pad : List ℕ)
    → Reads steps b (body ++ tail) c
    → length tail ≡ 4
    → length ((body ++ tail) ++ pad) ≡ k_block_size
    → crc32 body (length body) ≡ crc_of c
    → deserialize_block steps crc_of b ((body ++ tail) ++ pad) ≡ (pancake_store_ok, c)
unfolding deserialize_block
deserialize_block-Reads steps crc_of b c body tail pad r t n e = rw (
  eq→== (length ((body ++ tail) ++ pad)) k_block_size n,
  r.reads pad,
  checked_length,
  append_assoc body tail pad,
  crc32-append body (tail ++ pad),
  eq→== (crc32 body (length body)) (crc_of c) e,
)
  where
    checked_length : length ((body ++ tail) ++ pad) - length pad - 4 ≡ length body
    checked_length = omega (arith, length-append (body ++ tail) pad, length-append body tail)

pub assert_block_size-some :
    {B : Type 0} (host : Host) (b : B) (bytes : List ℕ)
    → length bytes ≡ k_block_size
    → assert_block_size host b bytes ≡ some (b, bytes)
unfolding assert_block_size
assert_block_size-some host b bytes h = rw (eq→== (length bytes) k_block_size h)

-- Behind a body of all bytes of a block but four, the checksum completes the block, and the block
-- is read back.
pub record IsStored {B : Type 0} (c : B) (out : Option (B × List ℕ)) (load : List ℕ → ErrorCode × B)
    : Type 0 where
  pub bytes : List ℕ
  pub written : out ≡ some (c, bytes)
  pub size : length bytes ≡ k_block_size
  pub loaded : load bytes ≡ (pancake_store_ok, c)
