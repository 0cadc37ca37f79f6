-- ===== src/Rpc/Serializer.antt =====
-- src/rpc/serializer.h: how a string and an `int` are written to a connection and read from it.
pub mod RoundTrip
use pancake_store.Base.{ℕ, ◌+◌, ◌%◌, ◌^◌, ◌≡◌, ◌<◌, Option, none, some, List, ◌++◌, length}
use pancake_store.Block.Host.{Host}

-- `Output` of the templates: what is written is appended.
pub record Output (O : Type 0) : Type 0 where
  pub write : O → List ℕ → O
  pub written : O → List ℕ
  pub write_lem : (o : O) (bytes : List ℕ) → written (write o bytes) ≡ written o ++ bytes

-- `Input` of the templates, with the bytes that are still to be read. A read takes the next bytes;
-- it throws, `none`, when there are not as many.
pub record Input (I : Type 0) : Type 0 where
  pub read : I → ℕ → Option (List ℕ × I)
  pub unread : I → List ℕ
  pub read_lem :
      (i : I) (bytes rest : List ℕ)
      → unread i ≡ bytes ++ rest
      → (i' : I) × (read i (length bytes) ≡ some (bytes, i')) × (unread i' ≡ rest)
  pub read_short : (i : I) (n : ℕ) → length (unread i) < n → read i n ≡ none

module _ {O : Type 0} (host : Host) (output : Output O) where
  unfoldable pub write_arithmetic_type : O → ℕ → ℕ → O
  write_arithmetic_type o width val = output.write o (host.object_bytes width val)

  -- The length is cut to 32 bits.
  unfoldable pub write_string : O → List ℕ → O
  unfolding write_arithmetic_type
  write_string o val = output.write (write_arithmetic_type o 4 (length val % 2 ^ 32)) val

  -- An `int` by its bit pattern.
  unfoldable pub write_int : O → ℕ → O
  unfolding write_arithmetic_type
  write_int o v = write_arithmetic_type o 4 v

module _ {I : Type 0} (host : Host) (input : Input I) where
  unfoldable pub read_arithmetic_type : I → ℕ → Option (ℕ × I)
  read_arithmetic_type i width = elim (input.read i width) [
    | none ↦ none
    | some (bytes, i') ↦ some (host.object_value bytes, i')
  ]

  unfoldable pub read_string : I → Option (List ℕ × I)
  unfolding read_arithmetic_type
  read_string i = elim (read_arithmetic_type i 4) [
    | none ↦ none
    | some (size, i') ↦ input.read i' size
  ]

  unfoldable pub read_int : I → Option (ℕ × I)
  unfolding read_arithmetic_type
  read_int i = read_arithmetic_type i 4
