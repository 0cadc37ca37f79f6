-- ===== src/Block/Bytes.antt =====
-- Sizes and the magic number of a block, and integers as bytes in network order.
use pancake_store.Base.{
  ℕ, zero, suc, ◌+◌, ◌*◌, ◌/◌, ◌%◌, ◌^◌, ◌<◌, ◌≡◌, refl, sym, ap, ap₂, ◌∙◌, List, [], ◌∷◌, ◌++◌,
  arith, length, All, IsByte,
}
use mathlib.Core.List.{append-nil, append_assoc}
use native.Mathlib.Nat.{
  mul-add-div_right, div-eq_of_lt, pow-suc, one-le-pow, mod-eq_of_lt, div-add-mod,
  div-div-eq-div-mul,
}

abbrev pub k_block_data_size : ℕ
k_block_data_size = 4064

abbrev pub k_block_footer_size : ℕ
k_block_footer_size = 32

abbrev pub k_block_size : ℕ
k_block_size = k_block_data_size + k_block_footer_size

abbrev pub k_block_magic : ℕ
k_block_magic = 0x20250430

-- The pieces appended to a string, in order.
abbrev pub concat : List (List ℕ) → List ℕ
concat [] = []
concat (x ∷ xs) = x ++ concat xs

pub concat_last : (xs : List (List ℕ)) (t : List ℕ) → concat (xs ++ (t ∷ [])) ≡ concat xs ++ t
concat_last [] t = append-nil t
concat_last (x ∷ xs) t = ap (◌++◌ x) (concat_last xs t) ∙ sym (append_assoc x (concat xs) t)

-- The `w` bytes of an integer, highest first, and back.
unfoldable pub be_bytes : ℕ → ℕ → List ℕ
be_bytes zero v = []
be_bytes (suc w) v = (v / 256 ^ w % 256) ∷ be_bytes w v

unfoldable pub of_be : List ℕ → ℕ
of_be [] = 0
of_be (b ∷ bytes) = b * 256 ^ length bytes + of_be bytes

pub length-be_bytes : (w v : ℕ) → length (be_bytes w v) ≡ w
unfolding be_bytes
length-be_bytes zero v = refl
length-be_bytes (suc w) v = ap suc (length-be_bytes w v)

pub be_bytes-IsByte : (w v : ℕ) → All IsByte (be_bytes w v)
unfolding be_bytes
be_bytes-IsByte zero v = tt
be_bytes-IsByte (suc w) v = (omega arith, be_bytes-IsByte w v)

-- The highest of the digits below `q`, where a digit counts for `p`.
mod_digit : (v p q : ℕ) → q ≡ p * 256 → v / p % 256 * p + v % p ≡ v % q
mod_digit v p q e = rw e (
    omega (
      arith,
      div-add-mod v p,
      div-add-mod v (p * 256),
      div-add-mod (v / p) 256,
      ap (λ (t : ℕ). t * p) (div-add-mod (v / p) 256),
      ap (λ (t : ℕ). t * (p * 256)) (div-div-eq-div-mul v p 256),
    ))

-- The bytes of an integer that is too wide are those of its low part.
of_be-be_bytes_mod : (w v : ℕ) → of_be (be_bytes w v) ≡ v % 256 ^ w
unfolding of_be be_bytes
of_be-be_bytes_mod zero v = omega arith
of_be-be_bytes_mod (suc w) v =
    rw (length-be_bytes, of_be-be_bytes_mod w v)
      (mod_digit v (256 ^ w) (256 ^ suc w) (pow-suc 256 w))

pub of_be-be_bytes : (w v : ℕ) → v < 256 ^ w → of_be (be_bytes w v) ≡ v
of_be-be_bytes w v h = of_be-be_bytes_mod w v ∙ mod-eq_of_lt h

digit-lt : (b p o : ℕ) → b < 256 → o < p → b * p + o < p * 256
digit-lt b p o h k = grind arith

pub of_be-lt : (bytes : List ℕ) → All IsByte bytes → of_be bytes < 256 ^ length bytes
unfolding of_be
of_be-lt [] h = omega arith
of_be-lt (b ∷ bytes) h =
    rw pow-suc (digit-lt b (256 ^ length bytes) (of_be bytes) h.0 (of_be-lt bytes h.1))

pos_of_lt : (o p : ℕ) → o < p → 0 < p
pos_of_lt o p k = omega arith

head_digit : (b p o : ℕ) → b < 256 → o < p → (b * p + o) / p % 256 ≡ b
head_digit b p o h k = ground (arith, mul-add-div_right (pos_of_lt o p k) b o, div-eq_of_lt k)

shifted : (v k p q : ℕ) → q ≡ p * 256 → k * q + v ≡ k * 256 * p + v
shifted v k p q e = rw e (omega arith)

high_digit : (v k p q : ℕ) → 0 < p → q ≡ p * 256 → (k * q + v) / p % 256 ≡ v / p % 256
high_digit v k p q pos e = ground (arith, mul-add-div_right pos (k * 256) v, shifted v k p q e)

-- Multiples of the modulus do not show in the bytes.
be_bytes-add : (w v k : ℕ) → be_bytes w (k * 256 ^ w + v) ≡ be_bytes w v
unfolding be_bytes
be_bytes-add zero v k = refl
be_bytes-add (suc w) v k =
    ap₂ ◌∷◌
      (high_digit v k (256 ^ w) (256 ^ suc w) (one-le-pow w 256 (omega arith)) (pow-suc 256 w))
      (ap (be_bytes w) (shifted v k (256 ^ w) (256 ^ suc w) (pow-suc 256 w))
        ∙ be_bytes-add w v (k * 256))

pub be_bytes-of_be :
    (bytes : List ℕ) → All IsByte bytes → be_bytes (length bytes) (of_be bytes) ≡ bytes
unfolding be_bytes of_be
be_bytes-of_be [] h = refl
be_bytes-of_be (b ∷ bytes) h =
    ap₂ ◌∷◌ (head_digit b (256 ^ length bytes) (of_be bytes) h.0 (of_be-lt bytes h.1))
      (be_bytes-add (length bytes) (of_be bytes) b ∙ be_bytes-of_be bytes h.1)
