-- ===== src/Datanode/Device/Mounted.antt =====
-- When a device counts as mounted.
use pancake_store.Base.{
  ℕ, ◌≡◌, ◌≢◌, ◌⊎◌, inl, inr, refl, sym, ap, ◌∙◌, true, false, some, List, [], ◌∷◌, ◌++◌, All,
  All-append, arith, Bool-cases, ne→==,
}
use mathlib.Core.List.{append_assoc}
use pancake_store.Comm.ErrorCode.{pancake_store_ok}
use pancake_store.Comm.Text.{
  same_text, same_text-eq, same_text-ne, getlines, onto_first, first_word, skip_spaces, take_word,
  is_space,
}
use pancake_store.Datanode.Device.{System, proc_mounts, mounted_loop, is_device_mounted}

-- A mount: its device, and what follows the device on the line.
pub record Mount : Type 0 where
  pub device : List ℕ
  pub others : List ℕ

-- The device's name is not empty and has no white space; the line has no end of line.
abbrev pub IsMount : Mount → Type 0
IsMount mount =
    (mount.device ≢ [])
    × All (λ c. is_space c ≡ false) mount.device
    × All (λ c. c ≢ b'\n') mount.others

-- The table as the system writes it: each line is the device, a blank, the rest, an end of line.
abbrev pub printed : List Mount → List ℕ
printed [] = []
printed (mount ∷ mounts) = mount.device ++ (b' ' ∷ (mount.others ++ (b'\n' ∷ printed mounts)))

abbrev pub Mounts : List ℕ → List Mount → Type 0
Mounts device_path [] = ⊥
Mounts device_path (mount ∷ mounts) = (mount.device ≡ device_path) ⊎ Mounts device_path mounts

-- A line in front is the first that is read.
getlines-line :
    (line rest : List ℕ)
    → All (λ c. c ≢ b'\n') line
    → getlines (line ++ (b'\n' ∷ rest)) ≡ line ∷ getlines rest
unfolding getlines onto_first
getlines-line [] rest h = refl
getlines-line (c ∷ line) rest h = rw (ne→== c b'\n' h.0, getlines-line line rest h.1) refl

take_word-word :
    (word rest : List ℕ)
    → All (λ c. is_space c ≡ false) word
    → take_word (word ++ (b' ' ∷ rest)) ≡ word
unfolding take_word
take_word-word [] rest h = refl
take_word-word (c ∷ word) rest h = rw (h.0, take_word-word word rest h.1) refl

first_word-word :
    (word rest : List ℕ)
    → word ≢ []
    → All (λ c. is_space c ≡ false) word
    → first_word (word ++ (b' ' ∷ rest)) ≡ word
unfolding first_word skip_spaces
first_word-word [] rest some_word h = absurd (some_word refl)
first_word-word (c ∷ word) rest some_word h = rw h.0 (take_word-word (c ∷ word) rest h)

no_newline : (word : List ℕ) → All (λ c. is_space c ≡ false) word → All (λ c. c ≢ b'\n') word
unfolding is_space
no_newline [] h = tt
no_newline (c ∷ word) h =
    (λ e. let at : is_space b'\n' ≡ false = rw e at h.0 in cc at, no_newline word h.1)

getlines-mount :
    (mount : Mount) (rest : List ℕ)
    → IsMount mount
    → getlines (mount.device ++ (b' ' ∷ (mount.others ++ (b'\n' ∷ rest))))
      ≡ (mount.device ++ (b' ' ∷ mount.others)) ∷ getlines rest
getlines-mount mount rest (named, word, line) =
    ap getlines (sym (append_assoc mount.device (b' ' ∷ mount.others) (b'\n' ∷ rest)))
    ∙ getlines-line (mount.device ++ (b' ' ∷ mount.others)) rest (
        All-append (λ c. c ≢ b'\n') mount.device (b' ' ∷ mount.others)
          (no_newline mount.device word) (omega arith, line))

mounted_loop-printed :
    (device_path : List ℕ) (mounts : List Mount)
    → All IsMount mounts
    → ((mounted_loop (getlines (printed mounts)) device_path ≡ true) × Mounts device_path mounts)
      ⊎ ((mounted_loop (getlines (printed mounts)) device_path ≡ false)
          × (¬ Mounts device_path mounts))
unfolding mounted_loop getlines
mounted_loop-printed device_path [] h = inr (refl, λ e. e)
mounted_loop-printed device_path (mount ∷ mounts) h =
    let lines = getlines-mount mount (printed mounts) h.0 in
    let device = first_word-word mount.device mount.others h.0.0 h.0.1 in
    elim (Bool-cases (same_text mount.device device_path)) [
      | inl e ↦ inl (rw (lines, mounted_loop, device, e) refl, inl (same_text-eq _ _ e))
      | inr e ↦ elim (mounted_loop-printed device_path mounts h.1) [
        | inl (m, at) ↦ inl (rw (lines, mounted_loop, device, e) m, inr at)
        | inr (m, no_mount) ↦ inr (
          rw (lines, mounted_loop, device, e) m,
          λ at. elim at [ inl same ↦ same_text-ne _ _ e same | inr later ↦ no_mount later ],
        )
      ]
    ]

-- When /proc/mounts can be opened and has the lines of some mounts, a device is reported mounted
-- when it is the device of one of them, and not mounted when it is not; the code is OK.
pub is_device_mounted-printed :
    (system : System) (device_path : List ℕ) (mounts : List Mount)
    → system.open_file proc_mounts ≡ some (printed mounts)
    → All IsMount mounts
    → ((is_device_mounted system device_path ≡ (pancake_store_ok, true))
        × Mounts device_path mounts)
      ⊎ ((is_device_mounted system device_path ≡ (pancake_store_ok, false))
          × (¬ Mounts device_path mounts))
unfolding is_device_mounted
is_device_mounted-printed system device_path mounts e h =
    elim (mounted_loop-printed device_path mounts h) [
      | inl (m, at) ↦ inl (rw (e, is_device_mounted, m) refl, at)
      | inr (m, no_mount) ↦ inr (rw (e, is_device_mounted, m) refl, no_mount)
    ]
