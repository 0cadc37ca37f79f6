-- ===== src/ExtentMgr/Turns.antt =====
-- The search of `AddExtent` is the search for the first clear bit in the order in which the cursor
-- comes by them.
use pancake_store.Base.{
  ℕ, zero, suc, ◌+◌, ◌-◌, ◌%◌, ◌≤◌, ◌<◌, ◌≡◌, inl, inr, refl, sym, ap, ap₂, ◌∙◌, Bool, true, false,
  Option, none, some, List, [], ◌∷◌, ◌++◌, length, get_elem?, arith, if◌then◌else◌, Bool-cases,
  Option-cases,
}
use native.Mathlib.Nat.{mod-add-mod, mod-lt, add-zero}
use mathlib.Core.Option.{none-ne-some}
use pancake_store.ExtentMgr.{Search, found, exhausted, find_unused}
use pancake_store.ExtentMgr.Cursor.{turn, round_on, get_elem?_in}

-- The indices that the cursor comes by in `n` rounds.
abbrev pub turns : ℕ → ℕ → ℕ → List ℕ
turns zero blocks cursor = []
turns (suc n) blocks cursor = (cursor % blocks) ∷ turns n blocks (cursor + 1)

-- A bit that is there and clear.
abbrev pub is_clear : Option Bool → Bool
is_clear (some false) = true
is_clear _ = false

-- The first of the indices whose bit is clear.
abbrev pub first_clear : List Bool → List ℕ → Option ℕ
first_clear bits [] = none
first_clear bits (i ∷ indices) =
    let rest = first_clear bits indices in if is_clear (get_elem? bits i) then some i else rest

-- What the search of `n` rounds then answers.
abbrev pub search_of : ℕ → ℕ → ℕ → Option ℕ → Search
search_of n blocks cursor (some i) = found i (i + 1)
search_of zero blocks cursor none = exhausted cursor
search_of (suc n) blocks cursor none = exhausted ((cursor + n) % blocks + 1)

turns_mod : (n blocks c d : ℕ) → c % blocks ≡ d % blocks → turns n blocks c ≡ turns n blocks d
turns_mod zero blocks c d e = refl
turns_mod (suc n) blocks c d e =
    ap₂ ◌∷◌ e
      (turns_mod n blocks (c + 1) (d + 1) (next c ∙ ap (λ x. (x + 1) % blocks) e ∙ sym (next d)))
  where
    next : (x : ℕ) → (x + 1) % blocks ≡ (x % blocks + 1) % blocks
    next x = sym (mod-add-mod x blocks 1)

search_of-next :
    (n blocks c : ℕ) (o : Option ℕ)
    → search_of n blocks (c % blocks + 1) o ≡ search_of (suc n) blocks c o
search_of-next n blocks c (some i) = refl
search_of-next zero blocks c none = ap (λ x. exhausted (x % blocks + 1)) (sym (add-zero c))
search_of-next (suc n) blocks c none = ap (λ x. exhausted (x + 1)) (round_on c n blocks)

find_unused-turns :
    (n blocks : ℕ) (bits : List Bool) (c : ℕ)
    → 0 < blocks
    → blocks ≤ length bits
    → find_unused n blocks bits c ≡ search_of n blocks c (first_clear bits (turns n blocks c))
unfolding find_unused
find_unused-turns zero blocks bits c h k = refl
find_unused-turns (suc n) blocks bits c h k =
    let (used, e) = get_elem?_in bits (c % blocks) (omega (arith, mod-lt c h)) in
    step used e (find_unused-turns n blocks bits (c % blocks + 1) h k)
  where
    step :
        (used : Bool)
        → get_elem? bits (c % blocks) ≡ some used
        → find_unused n blocks bits (c % blocks + 1)
          ≡ search_of n blocks (c % blocks + 1) (first_clear bits (turns n blocks (c % blocks + 1)))
        → find_unused (suc n) blocks bits c
          ≡ search_of (suc n) blocks c (first_clear bits (turns (suc n) blocks c))
    step false e ih = rw (e, find_unused) refl
    step true e ih =
        rw (e, find_unused)
          (ih
            ∙ ap (λ l. search_of n blocks (c % blocks + 1) (first_clear bits l))
                (turns_mod n blocks (c % blocks + 1) (c + 1) (mod-add-mod c blocks 1))
            ∙ search_of-next n blocks c (first_clear bits (turns n blocks (c + 1))))

-- Later turns add nothing where the first ones find an index.
first_clear-append :
    (bits : List Bool) (xs ys : List ℕ) (i : ℕ)
    → first_clear bits xs ≡ some i
    → first_clear bits (xs ++ ys) ≡ some i
first_clear-append bits [] ys i e = absurd (none-ne-some i e)
first_clear-append bits (x ∷ xs) ys i e = elim (Bool-cases (is_clear (get_elem? bits x))) [
  | inl b ↦ rw b (rw b at e)
  | inr b ↦ rw b (first_clear-append bits xs ys i (rw b at e))
]

suc_add : (n k : ℕ) → suc n + k ≡ suc (n + k)
suc_add n k = omega arith

add_one : (c n : ℕ) → c + 1 + n ≡ c + suc n
add_one c n = omega arith

turns-append :
    (n k blocks c : ℕ) → turns (n + k) blocks c ≡ turns n blocks c ++ turns k blocks (c + n)
turns-append zero k blocks c = ap₂ (λ a b. turns a blocks b) (omega arith) (sym (add-zero c))
turns-append (suc n) k blocks c =
    ap (λ x. turns x blocks c) (suc_add n k)
    ∙ ap (◌∷◌ (c % blocks)) (
        turns-append n k blocks (c + 1)
        ∙ ap (λ x. turns n blocks (c + 1) ++ turns k blocks x) (add_one c n))

head_none :
    (bits : List Bool) (i : ℕ) (indices : List ℕ)
    → first_clear bits (i ∷ indices) ≡ none
    → (is_clear (get_elem? bits i) ≡ false) × (first_clear bits indices ≡ none)
head_none bits i indices e = elim (Bool-cases (is_clear (get_elem? bits i))) [
  | inl b ↦
      let at : first_clear bits (i ∷ indices) ≡ some i = rw b refl in
      absurd (none-ne-some i (sym e ∙ at))
  | inr b ↦ (b, rw b at e)
]

-- Where they find none, no bit of the round is clear.
first_clear-none :
    (n blocks c t : ℕ) (bits : List Bool)
    → first_clear bits (turns n blocks c) ≡ none
    → t < n
    → is_clear (get_elem? bits ((c + t) % blocks)) ≡ false
first_clear-none zero blocks c t bits e h = absurd (omega arith)
first_clear-none (suc n) blocks c zero bits e h =
    ap (λ x. is_clear (get_elem? bits (x % blocks))) (add-zero c)
    ∙ (head_none bits (c % blocks) (turns n blocks (c + 1)) e).0
first_clear-none (suc n) blocks c (suc t) bits e h =
    ap (λ x. is_clear (get_elem? bits (x % blocks))) (sym (add_one c t))
    ∙ first_clear-none n blocks (c + 1) t bits
        (head_none bits (c % blocks) (turns n blocks (c + 1)) e).1 (omega arith)

-- Where no bit is clear they find none.
first_clear_full :
    (n blocks c : ℕ) (bits : List Bool)
    → 0 < blocks
    → ((j : ℕ) → j < blocks → is_clear (get_elem? bits j) ≡ false)
    → first_clear bits (turns n blocks c) ≡ none
first_clear_full zero blocks c bits h k = refl
first_clear_full (suc n) blocks c bits h k =
    rw (k (c % blocks) (mod-lt c h)) (first_clear_full n blocks (c + 1) bits h k)

module _ (rounds blocks : ℕ) (bits : List Bool) (cursor : ℕ) where
  one_round :
      0 < blocks
      → blocks ≤ rounds
      → first_clear bits (turns rounds blocks cursor)
        ≡ first_clear bits (turns blocks blocks cursor)
  one_round h r = elim (Option-cases (first_clear bits (turns blocks blocks cursor))) [
    | inl e ↦
        first_clear_full rounds blocks cursor bits h (λ j p.
          let (t, small, at) = turn cursor j blocks p in
          ap (λ x. is_clear (get_elem? bits x)) (sym at)
          ∙ first_clear-none blocks blocks cursor t bits e small)
        ∙ sym e
    | inr (i, e) ↦
        ap (λ n. first_clear bits (turns n blocks cursor)) (whole rounds r)
        ∙ ap (first_clear bits) (turns-append blocks (rounds - blocks) blocks cursor)
        ∙ first_clear-append bits (turns blocks blocks cursor)
            (turns (rounds - blocks) blocks (cursor + blocks)) i e
        ∙ sym e
  ]
    where
      whole : (n : ℕ) → blocks ≤ n → n ≡ blocks + (n - blocks)
      whole n p = omega arith

  -- With `blocks` bitmap blocks, one at least, as many bits and as many rounds: the search finds
  -- the first index whose bit is clear, in the order of one round of the cursor through the indices
  -- below `blocks`, and leaves the cursor behind it; when no bit there is clear it gives up, with
  -- the cursor behind the last index that it has looked at.
  pub find_unused-first_clear :
      0 < blocks
      → blocks ≤ length bits
      → blocks ≤ rounds
      → find_unused rounds blocks bits cursor
        ≡ search_of rounds blocks cursor (first_clear bits (turns blocks blocks cursor))
  find_unused-first_clear h k r =
      find_unused-turns rounds blocks bits cursor h k
      ∙ ap (search_of rounds blocks cursor) (one_round h r)
