-- ===== src/Block/Host.antt =====
-- The machine, the build and seastar's byte-order functions, which the blocks rely on.
use pancake_store.Base.{ℕ, Bool, ◌^◌, ◌<◌, ◌≡◌, List, length, All, IsByte}
use pancake_store.Block.Bytes.{be_bytes, of_be}

-- `object_bytes w v` are the bytes of a `w`-byte unsigned integer in memory, which `memcpy` and
-- `append` copy, and `object_value` reads them back. `hton` and `ntoh` are `seastar::net::hton`
-- and `ntoh` at the width `w`. The laws say that the memory of `hton(v)` is `v` in network order,
-- highest byte first, and that `ntoh` takes an integer read from such memory back; further that
-- the memory of a `w`-byte integer is `w` bytes, from which it is read back. `ndebug` is whether
-- the build defines NDEBUG, and so turns assertions off, as CMake's release builds do.
pub record Host : Type 0 where
  pub object_bytes : ℕ → ℕ → List ℕ
  pub object_value : List ℕ → ℕ
  pub hton : ℕ → ℕ → ℕ
  pub ntoh : ℕ → ℕ → ℕ
  pub ndebug : Bool
  pub hton_lem : (w v : ℕ) → v < 256 ^ w → object_bytes w (hton w v) ≡ be_bytes w v
  pub ntoh_lem :
      (bytes : List ℕ) → All IsByte bytes → ntoh (length bytes) (object_value bytes) ≡ of_be bytes
  pub object_length : (w v : ℕ) → v < 256 ^ w → length (object_bytes w v) ≡ w
  pub object_lem : (w v : ℕ) → v < 256 ^ w → object_value (object_bytes w v) ≡ v
