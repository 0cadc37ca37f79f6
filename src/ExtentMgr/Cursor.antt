-- ===== src/ExtentMgr/Cursor.antt =====
-- The search of `AddExtent` for an unused extent block: the cursor goes round the first
-- `bitmap_block_count_` bits.
use pancake_store.Base.{
  ℕ, zero, suc, ◌+◌, ◌-◌, ◌*◌, ◌/◌, ◌%◌, ◌≤◌, ◌<◌, ◌≡◌, ◌⊎◌, inl, inr, refl, sym, ap, ◌∙◌, Bool,
  true, false, Option, none, some, List, [], ◌∷◌, length, get_elem?, take, replicate, ap₂, leb,
  arith, Bool-cases, if◌then◌else◌,
}
use native.Mathlib.Nat.{
  mod-add-mod, add_assoc, add-zero, mod-lt, mod-eq_of_lt, add-mul-mod_self_left, div-add-mod,
  mul-suc,
}
use mathlib.Core.Option.{some-injective}
use mathlib.Core.Path.{subst}
use pancake_store.ExtentMgr.{Search, found, exhausted, fault, find_unused}

-- An index below the length is in the list.
pub get_elem?_in :
    (bits : List Bool) (i : ℕ) → i < length bits → (b : Bool) × (get_elem? bits i ≡ some b)
get_elem?_in [] i h = absurd (omega arith)
get_elem?_in (b ∷ bits) zero h = (b, refl)
get_elem?_in (b ∷ bits) (suc i) h = get_elem?_in bits i (omega arith)

-- What the outcome says of the bits that the search looked at: `rounds` of them, from `cursor` on,
-- modulo `blocks`.
abbrev pub Sound : ℕ → ℕ → List Bool → ℕ → Search → Type 0
Sound rounds blocks bits cursor (found i c) =
    (i < blocks) × (get_elem? bits i ≡ some false) × (c ≡ i + 1)
Sound rounds blocks bits cursor (exhausted c) =
    (t : ℕ) → t < rounds → get_elem? bits ((cursor + t) % blocks) ≡ some true
Sound rounds blocks bits cursor fault = ⊥

pub round_on : (c t n : ℕ) → (c % n + 1 + t) % n ≡ (c + suc t) % n
round_on c t n =
    ap (λ (x : ℕ). x % n) (add_assoc (c % n) 1 t)
    ∙ mod-add-mod c n (1 + t)
    ∙ ap (λ (x : ℕ). (c + x) % n) (one_add t)
  where
    one_add : (x : ℕ) → 1 + x ≡ suc x
    one_add x = omega arith

module _ (rounds blocks : ℕ) (bits : List Bool) (cursor : ℕ) where
  -- The bit at the cursor was looked at first, and was set.
  Sound-step :
      (s : Search)
      → get_elem? bits (cursor % blocks) ≡ some true
      → Sound rounds blocks bits (cursor % blocks + 1) s
      → Sound (suc rounds) blocks bits cursor s
  Sound-step (found i c) e h = h
  Sound-step fault e h = h
  Sound-step (exhausted c) e h = λ t p. each t p
    where
      each : (t : ℕ) → t < suc rounds → get_elem? bits ((cursor + t) % blocks) ≡ some true
      each zero p = ap (λ (x : ℕ). get_elem? bits (x % blocks)) (add-zero cursor) ∙ e
      each (suc t) p = ap (get_elem? bits) (sym (round_on cursor t blocks)) ∙ h t (omega arith)

-- What the loop does with the bit at the cursor.
look : ℕ → Search → Option Bool → Search
look at rest none = fault
look at rest (some used) = if used then rest else found at (at + 1)

Sound-look :
    (rounds blocks : ℕ) (bits : List Bool) (cursor : ℕ) (b : Bool) (rest : Search)
    → 0 < blocks
    → get_elem? bits (cursor % blocks) ≡ some b
    → Sound rounds blocks bits (cursor % blocks + 1) rest
    → Sound
        (suc rounds)
        blocks
        bits
        cursor
        (look (cursor % blocks) rest (get_elem? bits (cursor % blocks)))
unfolding look
Sound-look rounds blocks bits cursor true rest h e ih =
    subst (λ o. Sound (suc rounds) blocks bits cursor (look (cursor % blocks) rest o)) (sym e)
      (Sound-step rounds blocks bits cursor rest e ih)
Sound-look rounds blocks bits cursor false rest h e ih =
    subst (λ o. Sound (suc rounds) blocks bits cursor (look (cursor % blocks) rest o)) (sym e)
      (omega arith, e, refl)

find_unused-Sound :
    (rounds blocks : ℕ) (bits : List Bool) (cursor : ℕ)
    → 0 < blocks
    → blocks ≤ length bits
    → Sound rounds blocks bits cursor (find_unused rounds blocks bits cursor)
unfolding find_unused look
find_unused-Sound zero blocks bits cursor h k = λ t p. absurd (omega arith)
find_unused-Sound (suc rounds) blocks bits cursor h k =
    let (b, e) = get_elem?_in bits (cursor % blocks) (omega arith) in
    subst (Sound (suc rounds) blocks bits cursor) refl (
      Sound-look rounds blocks bits cursor b (find_unused rounds blocks bits (cursor % blocks + 1))
        h e (find_unused-Sound rounds blocks bits (cursor % blocks + 1) h k))

-- Whole rounds before an index do not count.
laps : (x q j n : ℕ) → x ≡ j + n * q → j < n → x % n ≡ j
laps x q j n e h = ap (λ (y : ℕ). y % n) e ∙ add-mul-mod_self_left j n q ∙ mod-eq_of_lt h

-- The place in the round at which the search comes by the index `j`.
pub turn : (c j n : ℕ) → j < n → (t : ℕ) × (t < n) × ((c + t) % n ≡ j)
turn c j n h =
    let small : c % n < n = mod-lt c (omega arith) in
    let whole = div-add-mod c n in
    elim (Bool-cases (leb (c % n) j)) [
      | inl e ↦
          let le : c % n ≤ j = ground arith in
          (j - c % n, omega arith, laps (c + (j - c % n)) (c / n) j n (omega arith) h)
      | inr e ↦
          let lt : j < c % n = ground arith in
          (
            j + n - c % n,
            omega arith,
            laps (c + (j + n - c % n)) (suc (c / n)) j n (omega (arith, mul-suc n (c / n))) h,
          )
    ]

-- A prefix whose bits are all set.
take_all_set :
    (n : ℕ) (bits : List Bool)
    → n ≤ length bits
    → ((j : ℕ) → j < n → get_elem? bits j ≡ some true)
    → take n bits ≡ replicate n true
take_all_set zero bits h k = refl
take_all_set (suc n) [] h k = absurd (omega arith)
take_all_set (suc n) (b ∷ bits) h k =
    ap₂ ◌∷◌ (some-injective b true (k 0 (omega arith)))
      (take_all_set n bits (omega arith) (λ j p. k (suc j) (omega arith)))

-- With at least as many rounds as there are bits to look at, and a bitmap that has them all, the
-- search never reads past the bitmap: either it finds an index below `blocks` whose bit is clear
-- and leaves the cursor behind it, or it gives up and the first `blocks` bits are all set.
pub find_unused_complete :
    (rounds blocks : ℕ) (bits : List Bool) (cursor : ℕ)
    → 0 < blocks
    → blocks ≤ length bits
    → blocks ≤ rounds
    → ((i : ℕ) × (find_unused rounds blocks bits cursor ≡ found i (i + 1))
        × (i < blocks)
        × (get_elem? bits i ≡ some false))
      ⊎ ((c : ℕ) × (find_unused rounds blocks bits cursor ≡ exhausted c)
          × (take blocks bits ≡ replicate blocks true))
find_unused_complete rounds blocks bits cursor h k r =
    go (find_unused rounds blocks bits cursor) refl
      (find_unused-Sound rounds blocks bits cursor h k)
  where
    go :
        (s : Search)
        → find_unused rounds blocks bits cursor ≡ s
        → Sound rounds blocks bits cursor s
        → ((i : ℕ) × (find_unused rounds blocks bits cursor ≡ found i (i + 1))
            × (i < blocks)
            × (get_elem? bits i ≡ some false))
          ⊎ ((c : ℕ) × (find_unused rounds blocks bits cursor ≡ exhausted c)
              × (take blocks bits ≡ replicate blocks true))
    go (found i c) e (s, t, u) = inl (i, e ∙ ap (found i) u, s, t)
    go fault e s = absurd s
    go (exhausted c) e s = inr (
      c,
      e,
      take_all_set blocks bits k (λ j p.
          let (t, small, at) = turn cursor j blocks p in
          ap (get_elem? bits) (sym at) ∙ s t (omega arith)),
    )
