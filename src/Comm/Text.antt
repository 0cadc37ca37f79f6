-- ===== src/Comm/Text.antt =====
-- How the code reads text, as bytes: `c_str()`, `std::getline`, and `>>` of a stream into a string
-- or a `uint64_t`.
use pancake_store.Base.{
  ℕ, ◌+◌, ◌-◌, ◌*◌, ◌%◌, ◌^◌, ◌≡◌, ◌≢◌, refl, ap, Bool, true, false, ◌&&◌, ◌||◌, List, [], ◌∷◌,
  ◌++◌, All, ◌==◌, leb, ltb, if◌then◌else◌, arith, ne→==, Bool-cases, inl, inr,
}

-- What is left of a string when a C string is made a string again: it ends at the first zero byte.
unfoldable pub c_str : List ℕ → List ℕ
c_str [] = []
c_str (b ∷ bytes) = let rest = c_str bytes in if b == 0 then [] else b ∷ rest

-- A string with no zero byte passes.
pub c_str_whole : (bytes : List ℕ) → All (λ b. b ≢ 0) bytes → c_str bytes ≡ bytes
unfolding c_str
c_str_whole [] h = refl
c_str_whole (b ∷ bytes) h = rw (ne→== b 0 h.0) (ap (◌∷◌ b) (c_str_whole bytes h.1))

pub c_str_cut : (front x y : List ℕ) → c_str (front ++ (0 ∷ x)) ≡ c_str (front ++ (0 ∷ y))
unfolding c_str
c_str_cut [] x y = refl
c_str_cut (b ∷ front) x y = elim (Bool-cases (b == 0)) [
  | inl e ↦ rw e refl
  | inr e ↦ rw e (ap (◌∷◌ b) (c_str_cut front x y))
]

-- `==` of two strings.
unfoldable pub same_text : List ℕ → List ℕ → Bool
same_text [] [] = true
same_text (b ∷ x) (c ∷ y) = let rest = same_text x y in b == c && rest
same_text _ _ = false

pub same_text-eq : (x y : List ℕ) → same_text x y ≡ true → x ≡ y
unfolding same_text
same_text-eq [] [] h = refl
same_text-eq [] (c ∷ y) h = cc
same_text-eq (b ∷ x) [] h = cc
same_text-eq (b ∷ x) (c ∷ y) h = ground (arith, h, same_text-eq x y)

pub same_text_self : (x : List ℕ) → same_text x x ≡ true
unfolding same_text
same_text_self [] = refl
same_text_self (b ∷ x) = ground (arith, same_text_self x)

pub same_text-ne : (x y : List ℕ) → same_text x y ≡ false → x ≢ y
same_text-ne x y h e = let at : same_text y y ≡ false = rw e at h in cc (at, same_text_self y)

-- The lines that `std::getline` reads one after the other.
unfoldable pub onto_first : ℕ → List (List ℕ) → List (List ℕ)
onto_first c [] = (c ∷ []) ∷ []
onto_first c (line ∷ lines) = (c ∷ line) ∷ lines

unfoldable pub getlines : List ℕ → List (List ℕ)
unfolding onto_first
getlines [] = []
getlines (c ∷ content) =
    let rest = getlines content in if c == b'\n' then [] ∷ rest else onto_first c rest

unfoldable pub is_space : ℕ → Bool
is_space c = c == b' ' || (leb 9 c && leb c 13)

unfoldable pub skip_spaces : List ℕ → List ℕ
unfolding is_space
skip_spaces [] = []
skip_spaces (c ∷ text) = let rest = skip_spaces text in if is_space c then rest else c ∷ text

unfoldable pub take_word : List ℕ → List ℕ
unfolding is_space
take_word [] = []
take_word (c ∷ text) = let rest = take_word text in if is_space c then [] else c ∷ rest

-- `iss >> word` on a new stream, for a word that was empty.
unfoldable pub first_word : List ℕ → List ℕ
unfolding skip_spaces take_word
first_word line = take_word (skip_spaces line)

unfoldable pub is_digit : ℕ → Bool
is_digit c = leb b'0' c && leb c b'9'

-- The value of the digits in front, started from `acc`.
unfoldable pub digits_value : ℕ → List ℕ → ℕ
unfolding is_digit
digits_value acc [] = acc
digits_value acc (c ∷ text) =
    let rest = digits_value (acc * 10 + (c - b'0')) text in if is_digit c then rest else acc

-- A value that has no room becomes the largest.
unfoldable pub clamp_uint64 : ℕ → ℕ
clamp_uint64 n = if ltb n (2 ^ 64) then n else 2 ^ 64 - 1

-- `file >> value` into a `uint64_t`, in the C locale. With no digit the value is 0; a minus sign
-- negates modulo 2^64 what has room.
unfoldable pub read_signed : List ℕ → ℕ
unfolding digits_value clamp_uint64
read_signed [] = 0
read_signed (c ∷ text) =
    let n = digits_value 0 text in
    if c == b'+'
    then clamp_uint64 n
    else if c == b'-'
    then (if ltb n (2 ^ 64) then (2 ^ 64 - n) % 2 ^ 64 else 2 ^ 64 - 1)
    else clamp_uint64 (digits_value 0 (c ∷ text))

unfoldable pub read_uint64 : List ℕ → ℕ
unfolding skip_spaces read_signed
read_uint64 text = read_signed (skip_spaces text)
