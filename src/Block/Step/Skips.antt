-- ===== src/Block/Step/Skips.antt =====
-- How far a step moves on, whatever it reads.
use pancake_store.Base.{
  ℕ, zero, suc, ◌+◌, ◌≤◌, ◌≡◌, refl, sym, ap, ◌∙◌, List, [], ◌∷◌, length, take, drop, arith, le→ltb,
  length-drop,
}
use pancake_store.Block.Host.{Host}
use pancake_store.Block.Step.{byte_value, Step, go, ◌>>◌, read_data, read_byte, read_int}

-- The step `m` takes `n` bytes off what is left if there are as many.
pub record Skips {B : Type 0} (m : Step B) (n : ℕ) : Type 0 where
  pub after : B → List ℕ → B
  pub skips : (b : B) (rest : List ℕ) → n ≤ length rest → m b rest ≡ go (after b rest) (drop n rest)

drop-nil : (n : ℕ) → drop {A = ℕ} n [] ≡ []
drop-nil zero = refl
drop-nil (suc n) = refl

suc_add : (m n : ℕ) → suc (m + n) ≡ suc m + n
suc_add m n = omega arith

pub drop-drop : (n m : ℕ) (xs : List ℕ) → drop n (drop m xs) ≡ drop (m + n) xs
drop-drop n zero xs = ap (λ (j : ℕ). drop j xs) (omega arith)
drop-drop n (suc m) [] = drop-nil n ∙ sym (drop-nil (suc m + n))
drop-drop n (suc m) (x ∷ xs) = drop-drop n m xs ∙ ap (λ (j : ℕ). drop j (x ∷ xs)) (suc_add m n)

pub read_data-Skips : {B : Type 0} (n : ℕ) (assign : List ℕ → B → B) → Skips (read_data n assign) n
unfolding read_data
read_data-Skips n assign = record {
  after = λ b rest. assign (take n rest) b;
  skips = λ b rest h. rw (le→ltb (length rest) n h);
}

pub read_byte-Skips : {B : Type 0} (assign : ℕ → B → B) → Skips (read_byte assign) 1
unfolding read_byte
read_byte-Skips assign = read_data-Skips 1 (λ bytes. assign (byte_value bytes))

pub read_int-Skips :
    {B : Type 0} (host : Host) (n : ℕ) (assign : ℕ → B → B) → Skips (read_int host n assign) n
unfolding read_int
read_int-Skips host n assign =
    read_data-Skips n (λ bytes. assign (host.ntoh n (host.object_value bytes)))

pub >>-Skips :
    {B : Type 0} {m k : Step B} {n p : ℕ} (q : ℕ)
    → n + p ≡ q
    → Skips m n
    → Skips k p
    → Skips (m >> k) q
>>-Skips {m} {k} {n} {p} q e s t = record {
  after = λ b rest. t.after (s.after b rest) (drop n rest);
  skips = λ b rest h.
      rw (s.skips b rest (omega arith), ◌>>◌)
        (t.skips (s.after b rest) (drop n rest) (omega (arith, length-drop n rest))
          ∙ ap (go (t.after (s.after b rest) (drop n rest)))
              (drop-drop p n rest ∙ ap (λ (j : ℕ). drop j rest) e));
}
