-- ===== src/Rpc/Serializer/RoundTrip.antt =====
-- What was written to a connection is read from it.
use pancake_store.Base.{
  ℕ, ◌%◌, ◌^◌, ◌≡◌, ◌<◌, refl, sym, ap, ◌∙◌, Option, none, some, List, [], ◌∷◌, ◌++◌, length, take,
  drop, arith, length-take, take-append-drop, All,
}
use mathlib.Core.List.{append_assoc, append-nil}
use native.Mathlib.Nat.{mod-eq_of_lt}
use pancake_store.Block.Host.{Host}
use pancake_store.Rpc.Serializer.{
  Output, Input, write_string, write_int, write_arithmetic_type, read_string, read_int,
  read_arithmetic_type,
}

take_all : {A : Type 0} (xs : List A) → take (length xs) xs ≡ xs
take_all [] = refl
take_all (x ∷ xs) = ap (◌∷◌ x) (take_all xs)

drop_all : {A : Type 0} (xs : List A) → drop (length xs) xs ≡ []
drop_all [] = refl
drop_all (x ∷ xs) = drop_all xs

-- What is put on a connection: a string, or an `int` by its bit pattern.
pub data Kind : Type 0 where
  string int : Kind

pub data Value : Type 0 where
  text : List ℕ → Value
  number : ℕ → Value

abbrev pub kind_of : Value → Kind
kind_of (text val) = string
kind_of (number v) = int

abbrev pub kinds : List Value → List Kind
kinds [] = []
kinds (value ∷ values) = kind_of value ∷ kinds values

-- The length of a string, and an `int`, have 32 bits.
abbrev pub IsShort : Value → Type 0
IsShort (text val) = length val < 2 ^ 32
IsShort (number v) = v < 2 ^ 32

-- Values one after the other.
module _ {O : Type 0} (host : Host) (output : Output O) where
  abbrev write_value : O → Value → O
  write_value o (text val) = write_string host output o val
  write_value o (number v) = write_int host output o v

  abbrev pub write_all : O → List Value → O
  write_all o [] = o
  write_all o (value ∷ values) = write_all (write_value o value) values

module _ {I : Type 0} (host : Host) (input : Input I) where
  abbrev read_value : Kind → I → Option (Value × I)
  read_value string i = elim (read_string host input i) [
    | none ↦ none
    | some (val, i') ↦ some (text val, i')
  ]
  read_value int i = elim (read_int host input i) [
    | none ↦ none
    | some (v, i') ↦ some (number v, i')
  ]

  abbrev pub read_all : List Kind → I → Option (List Value × I)
  read_all [] i = some ([], i)
  read_all (kind ∷ kinds) i = elim (read_value kind i) [
    | none ↦ none
    | some (value, i') ↦ elim (read_all kinds i') [
      | none ↦ none
      | some (values, i'') ↦ some (value ∷ values, i'')
    ]
  ]

module _ {O I : Type 0} (host : Host) (output : Output O) (input : Input I) where
  -- The bytes of one string.
  abbrev encoded : List ℕ → List ℕ
  encoded val = host.object_bytes 4 (length val % 2 ^ 32) ++ val

  written-write_string :
      (o : O) (val : List ℕ)
      → output.written (write_string host output o val) ≡ output.written o ++ encoded val
  unfolding write_string write_arithmetic_type
  written-write_string o val =
      output.write_lem (output.write o (host.object_bytes 4 (length val % 2 ^ 32))) val
      ∙ ap (λ (l : List ℕ). l ++ val)
          (output.write_lem o (host.object_bytes 4 (length val % 2 ^ 32)))
      ∙ append_assoc (output.written o) (host.object_bytes 4 (length val % 2 ^ 32)) val

  -- An integer that is next is read.
  read_arithmetic_type_next :
      (i : I) (v : ℕ) (rest : List ℕ)
      → v < 256 ^ 4
      → input.unread i ≡ host.object_bytes 4 v ++ rest
      → (i' : I) × (read_arithmetic_type host input i 4 ≡ some (v, i')) × (input.unread i' ≡ rest)
  unfolding read_arithmetic_type
  read_arithmetic_type_next i v rest h e =
      let (i', at, left) = input.read_lem i (host.object_bytes 4 v) rest e in
      let here : input.read i 4 ≡ some (host.object_bytes 4 v, i') =
        ap (input.read i) (sym (host.object_length 4 v h)) ∙ at in
      (i', rw (here, read_arithmetic_type, host.object_lem 4 v h) refl, left)

  -- A string that is next is read, up to its length in 32 bits.
  read_string_next :
      (i : I) (val rest : List ℕ)
      → input.unread i ≡ encoded val ++ rest
      → (i' : I) × (read_string host input i ≡ some (take (length val % 2 ^ 32) val, i'))
        × (input.unread i' ≡ drop (length val % 2 ^ 32) val ++ rest)
  unfolding read_string
  read_string_next i val rest e =
      let n = length val % 2 ^ 32 in
      let (i1, sized, left1) =
        read_arithmetic_type_next i n (val ++ rest) (omega arith)
          (e ∙ append_assoc (host.object_bytes 4 n) val rest) in
      let parts : input.unread i1 ≡ take n val ++ (drop n val ++ rest) =
        left1
        ∙ ap (λ (l : List ℕ). l ++ rest) (sym (take-append-drop n val))
        ∙ append_assoc (take n val) (drop n val) rest in
      let (i2, at, left2) = input.read_lem i1 (take n val) (drop n val ++ rest) parts in
      let size : length (take n val) ≡ n = omega (arith, length-take n val) in
      (i2, rw (sized, read_string) (ap (input.read i1) (sym size) ∙ at), left2)

  abbrev encoded_value : Value → List ℕ
  encoded_value (text val) = encoded val
  encoded_value (number v) = host.object_bytes 4 v

  abbrev encoded_all : List Value → List ℕ
  encoded_all [] = []
  encoded_all (value ∷ values) = encoded_value value ++ encoded_all values

  written-write_value :
      (o : O) (value : Value)
      → output.written (write_value host output o value) ≡ output.written o ++ encoded_value value
  unfolding write_int write_arithmetic_type
  written-write_value o (text val) = written-write_string o val
  written-write_value o (number v) = output.write_lem o (host.object_bytes 4 v)

  written-write_all :
      (o : O) (values : List Value)
      → output.written (write_all host output o values) ≡ output.written o ++ encoded_all values
  written-write_all o [] = sym (append-nil (output.written o))
  written-write_all o (value ∷ values) =
      written-write_all (write_value host output o value) values
      ∙ ap (λ (l : List ℕ). l ++ encoded_all values) (written-write_value o value)
      ∙ append_assoc (output.written o) (encoded_value value) (encoded_all values)

  read_value_next :
      (i : I) (value : Value) (rest : List ℕ)
      → IsShort value
      → input.unread i ≡ encoded_value value ++ rest
      → (i' : I) × (read_value host input (kind_of value) i ≡ some (value, i'))
        × (input.unread i' ≡ rest)
  unfolding read_int
  read_value_next i (text val) rest h e =
      let whole : length val % 2 ^ 32 ≡ length val = mod-eq_of_lt h in
      let (i1, at, left) = read_string_next i val rest e in
      let same : take (length val % 2 ^ 32) val ≡ val =
        ap (λ (n : ℕ). take n val) whole ∙ take_all val in
      (
        i1,
        rw (at, read_value, same) refl,
        left ∙ ap (λ (l : List ℕ). l ++ rest) (ap (λ (n : ℕ). drop n val) whole ∙ drop_all val),
      )
  read_value_next i (number v) rest h e =
      let (i1, at, left) = read_arithmetic_type_next i v rest h e in
      (i1, rw (at, read_int, read_value) refl, left)

  read_all_next :
      (values : List Value) (i : I) (rest : List ℕ)
      → All IsShort values
      → input.unread i ≡ encoded_all values ++ rest
      → (i' : I) × (read_all host input (kinds values) i ≡ some (values, i'))
        × (input.unread i' ≡ rest)
  read_all_next [] i rest h e = (i, refl, e)
  read_all_next (value ∷ values) i rest h e =
      let (i1, at, left) =
        read_value_next i value (encoded_all values ++ rest) h.0
          (e ∙ append_assoc (encoded_value value) (encoded_all values) rest) in
      let (i2, at2, left2) = read_all_next values i1 rest h.1 left in
      (i2, rw (at, read_all, at2) refl, left2)

  -- Any number of strings that are each shorter than 2^32 bytes, and of `int`s, written one after
  -- the other to a fresh connection, are read in their order by the reads of the same types at the
  -- other end, to whom that is sent and then `rest`; what is left is `rest`.
  pub read_all-write_all :
      (o : O) (i : I) (values : List Value) (rest : List ℕ)
      → All IsShort values
      → output.written o ≡ []
      → input.unread i ≡ output.written (write_all host output o values) ++ rest
      → (i' : I) × (read_all host input (kinds values) i ≡ some (values, i'))
        × (input.unread i' ≡ rest)
  read_all-write_all o i values rest short fresh sent = read_all_next values i rest short (
      sent
      ∙ ap (λ (l : List ℕ). l ++ rest)
          (written-write_all o values ∙ ap (λ (l : List ℕ). l ++ encoded_all values) fresh))
