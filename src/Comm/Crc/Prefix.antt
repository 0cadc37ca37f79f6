-- ===== src/Comm/Crc/Prefix.antt =====
-- The checksum of src/comm/crc.cc looks at the bytes that it is told to, and at no others.
use Prim.Native.Nat.{bit_xor}
use pancake_store.Base.{ℕ, ◌≡◌, refl, ap, List, [], ◌∷◌, ◌++◌, length}
use pancake_store.Comm.Crc.{crc_step, crc_loop, crc32}

crc_loop-append :
    (bytes more : List ℕ) (crc : ℕ)
    → crc_loop (length bytes) (bytes ++ more) crc ≡ crc_loop (length bytes) bytes crc
unfolding crc_loop
crc_loop-append [] [] crc = refl
crc_loop-append [] (b ∷ more) crc = refl
crc_loop-append (b ∷ bytes) more crc = crc_loop-append bytes more (crc_step crc b)

pub crc32-append :
    (bytes more : List ℕ) → crc32 (bytes ++ more) (length bytes) ≡ crc32 bytes (length bytes)
unfolding crc32
crc32-append bytes more = ap (λ c. bit_xor c 0xFFFFFFFF) (crc_loop-append bytes more 0xFFFFFFFF)
