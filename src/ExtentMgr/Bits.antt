-- ===== src/ExtentMgr/Bits.antt =====
-- The loop that makes a bitmap block from the bitmap in memory: a byte for each extent block.
use Prim.Native.Nat.{bit_and, bit_or}
use pancake_store.Base.{
  ℕ, zero, suc, ◌+◌, ◌/◌, ◌%◌, ◌≤◌, ◌<◌, ◌≡◌, ◌⊎◌, inl, inr, refl, sym, ap, ◌∙◌, Bool, true, false,
  none, some, List, [], ◌∷◌, length, get_or, set, replicate, ltb, ltb→lt, ◌==◌, ==→eq, All, IsByte,
  length-set, get_or-set_self, get_or-set_ne, arith, Bool-cases, Option-cases, get_elem?,
  if◌then◌else◌,
}
use mathlib.Core.Path.{subst}
use mathlib.Core.Option.{some-injective, none-ne-some}
use pancake_store.Base.Range.{all_below, all_below_sound}
use pancake_store.Block.Bitmap.{BitMapBlock}
use pancake_store.ExtentMgr.{
  set_bit, clear_bit, clone_bits, mark_extent_block_used, mark_extent_block_unused,
}

-- `markExtentBlockUsed`, or `markExtentBlockUnused`.
abbrev pub changed : Bool → BitMapBlock → ℕ → BitMapBlock
changed true block i = mark_extent_block_used block i
changed false block i = mark_extent_block_unused block i

or_check : all_below 256 (λ x. ltb (bit_or x 1) 256) ≡ true
unfolding all_below
or_check = refl

and_check : all_below 256 (λ x. ltb (bit_and x 254) 256) ≡ true
unfolding all_below
and_check = refl

-- A byte with its lowest bit set, or cleared.
abbrev pub with_bit : Bool → ℕ → ℕ
with_bit true x = bit_or x 1
with_bit false x = bit_and x 254

pub with_bit-IsByte : (b : Bool) (x : ℕ) → IsByte x → IsByte (with_bit b x)
with_bit-IsByte true x h = ltb→lt _ _ (all_below_sound 256 _ x or_check h)
with_bit-IsByte false x h = ltb→lt _ _ (all_below_sound 256 _ x and_check h)

over_one : (n : ℕ) → n / 1 ≡ n
over_one n = omega arith

mod_one : (n : ℕ) → n % 1 ≡ 0
mod_one n = omega arith

-- A bit of the block is the lowest bit of the byte at its own index.
pub one_step :
    (b : Bool) (bytes : List ℕ) (inner : ℕ)
    → (if b then set_bit bytes inner else clear_bit bytes inner)
      ≡ set bytes inner (with_bit b (get_or bytes inner 0))
unfolding set_bit clear_bit
one_step true bytes inner = rw (over_one inner, mod_one inner) refl
one_step false bytes inner = rw (over_one inner, mod_one inner) refl

pub All-get_or : (bytes : List ℕ) (i : ℕ) → All IsByte bytes → IsByte (get_or bytes i 0)
All-get_or [] i h = omega arith
All-get_or (x ∷ bytes) zero h = h.0
All-get_or (x ∷ bytes) (suc i) h = All-get_or bytes i h.1

pub All-set : (bytes : List ℕ) (i v : ℕ) → All IsByte bytes → IsByte v → All IsByte (set bytes i v)
All-set [] i v h k = h
All-set (x ∷ bytes) zero v h k = (k, h.1)
All-set (x ∷ bytes) (suc i) v h k = (h.0, All-set bytes i v h.1 k)

abbrev step : ℕ → ℕ → List Bool → List ℕ → List ℕ
step start inner bits bytes =
    if get_or bits (start + inner) false then set_bit bytes inner else clear_bit bytes inner

length-step :
    (start inner : ℕ) (bits : List Bool) (bytes : List ℕ)
    → length (step start inner bits bytes) ≡ length bytes
length-step start inner bits bytes =
    ap length (one_step (get_or bits (start + inner) false) bytes inner) ∙ length-set bytes inner _

step-IsByte :
    (start inner : ℕ) (bits : List Bool) (bytes : List ℕ)
    → All IsByte bytes
    → All IsByte (step start inner bits bytes)
step-IsByte start inner bits bytes h =
    rw (one_step (get_or bits (start + inner) false) bytes inner) (
      All-set bytes inner _ h
        (with_bit-IsByte (get_or bits (start + inner) false) _ (All-get_or bytes inner h)))

-- The loop of `cloneBitMapBlockWithoutLock` where it reads no bit past the bitmap.
pub copy_bits : ℕ → ℕ → ℕ → List Bool → List ℕ → List ℕ
copy_bits zero start inner bits bytes = bytes
copy_bits (suc rounds) start inner bits bytes =
    copy_bits rounds start (inner + 1) bits (step start inner bits bytes)

get_elem?-get_or :
    (bits : List Bool) (i : ℕ) (b : Bool) → get_elem? bits i ≡ some b → get_or bits i false ≡ b
get_elem?-get_or [] i b e = absurd (none-ne-some b e)
get_elem?-get_or (x ∷ bits) zero b e = some-injective _ _ e
get_elem?-get_or (x ∷ bits) (suc i) b e = get_elem?-get_or bits i b e

get_elem?_inside :
    (bits : List Bool) (i : ℕ) → i < length bits → get_elem? bits i ≡ some (get_or bits i false)
get_elem?_inside [] i h = absurd (omega arith)
get_elem?_inside (x ∷ bits) zero h = refl
get_elem?_inside (x ∷ bits) (suc i) h = get_elem?_inside bits i (omega arith)

-- What the loop makes, where it makes something.
pub clone_bits-copy_bits :
    (rounds start inner : ℕ) (bits : List Bool) (bytes made : List ℕ)
    → clone_bits rounds start inner bits bytes ≡ some made
    → made ≡ copy_bits rounds start inner bits bytes
unfolding clone_bits copy_bits
clone_bits-copy_bits zero start inner bits bytes made e = sym (some-injective _ _ e)
clone_bits-copy_bits (suc rounds) start inner bits bytes made e =
    elim (Option-cases (get_elem? bits (start + inner))) [
      | inl f ↦
          let at : clone_bits (suc rounds) start inner bits bytes ≡ none =
            rw (f, clone_bits) refl in
          absurd (none-ne-some made (sym at ∙ e))
      | inr (used, f) ↦
          let at : clone_bits (suc rounds) start inner bits bytes
              ≡ clone_bits rounds start (inner + 1) bits (step start inner bits bytes) =
            rw (f, get_elem?-get_or bits (start + inner) used f, clone_bits) refl in
          clone_bits-copy_bits rounds start (inner + 1) bits (step start inner bits bytes) made
            (sym at ∙ e)
    ]

-- It makes something where the bits that it comes to are in the bitmap.
pub clone_bits-some :
    (rounds start inner : ℕ) (bits : List Bool) (bytes : List ℕ)
    → (rounds ≡ 0) ⊎ (start + inner + rounds ≤ length bits)
    → clone_bits rounds start inner bits bytes ≡ some (copy_bits rounds start inner bits bytes)
unfolding clone_bits copy_bits
clone_bits-some zero start inner bits bytes h = refl
clone_bits-some (suc rounds) start inner bits bytes h =
    rw (get_elem?_inside bits (start + inner) (ground arith), clone_bits)
      (clone_bits-some rounds start (inner + 1) bits (step start inner bits bytes)
        (inr (ground arith)))

pub length-copy_bits :
    (rounds start inner : ℕ) (bits : List Bool) (bytes : List ℕ)
    → length (copy_bits rounds start inner bits bytes) ≡ length bytes
unfolding copy_bits
length-copy_bits zero start inner bits bytes = refl
length-copy_bits (suc rounds) start inner bits bytes =
    length-copy_bits rounds start (inner + 1) bits (step start inner bits bytes)
    ∙ length-step start inner bits bytes

pub copy_bits-IsByte :
    (rounds start inner : ℕ) (bits : List Bool) (bytes : List ℕ)
    → All IsByte bytes
    → All IsByte (copy_bits rounds start inner bits bytes)
unfolding copy_bits
copy_bits-IsByte zero start inner bits bytes h = h
copy_bits-IsByte (suc rounds) start inner bits bytes h =
    copy_bits-IsByte rounds start (inner + 1) bits (step start inner bits bytes)
      (step-IsByte start inner bits bytes h)

-- The bytes that the loop does not come to stay.
pub copy_bits_other :
    (rounds start inner : ℕ) (bits : List Bool) (bytes : List ℕ) (j : ℕ)
    → (j < inner) ⊎ (inner + rounds ≤ j)
    → get_or (copy_bits rounds start inner bits bytes) j 0 ≡ get_or bytes j 0
unfolding copy_bits
copy_bits_other zero start inner bits bytes j h = refl
copy_bits_other (suc rounds) start inner bits bytes j h =
    copy_bits_other rounds start (inner + 1) bits (step start inner bits bytes) j (ground arith)
    ∙ ap (λ (l : List ℕ). get_or l j 0) (one_step (get_or bits (start + inner) false) bytes inner)
    ∙ get_or-set_ne bytes inner j _ 0 (ground arith)

pub copy_bits_entry :
    (rounds start inner : ℕ) (bits : List Bool) (bytes : List ℕ) (j : ℕ)
    → inner ≤ j
    → j < inner + rounds
    → j < length bytes
    → get_or (copy_bits rounds start inner bits bytes) j 0
      ≡ with_bit (get_or bits (start + j) false) (get_or bytes j 0)
unfolding copy_bits
copy_bits_entry zero start inner bits bytes j h k l = absurd (omega arith)
copy_bits_entry (suc rounds) start inner bits bytes j h k l = elim (Bool-cases (inner == j)) [
  | inl e ↦
      let same : inner ≡ j = ==→eq _ _ e in
      subst
        (λ (i : ℕ).
          get_or (copy_bits (suc rounds) start inner bits bytes) i 0
          ≡ with_bit (get_or bits (start + i) false) (get_or bytes i 0))
        same
        (copy_bits_other rounds start (inner + 1) bits (step start inner bits bytes) inner
            (inl (omega arith))
          ∙ ap (λ (s : List ℕ). get_or s inner 0)
              (one_step (get_or bits (start + inner) false) bytes inner)
          ∙ get_or-set_self bytes inner _ 0 (omega arith))
  | inr e ↦
      copy_bits_entry rounds start (inner + 1) bits (step start inner bits bytes) j (ground arith)
        (omega arith) (omega (arith, length-step start inner bits bytes))
      ∙ ap (with_bit (get_or bits (start + j) false)) (
          ap (λ (s : List ℕ). get_or s j 0)
            (one_step (get_or bits (start + inner) false) bytes inner)
          ∙ get_or-set_ne bytes inner j _ 0 (ground arith))
]

pub ltb_false→le : (a b : ℕ) → ltb a b ≡ false → b ≤ a
ltb_false→le a b h = ground arith

pub get_or-replicate : (n i : ℕ) → get_or {A = ℕ} (replicate n 0) i 0 ≡ 0
get_or-replicate zero i = refl
get_or-replicate (suc n) zero = refl
get_or-replicate (suc n) (suc i) = get_or-replicate n i

-- A byte for a bit.
abbrev pub byte_of : Bool → ℕ
byte_of true = 1
byte_of false = 0

pub with_bit-zero : (b : Bool) → with_bit b 0 ≡ byte_of b
with_bit-zero true = refl
with_bit-zero false = refl
