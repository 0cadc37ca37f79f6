-- ===== src/Block/Footer/Parts.antt =====
-- The parts of the bytes of a block with a footer: its data, the footer's fields, the checksum.
use pancake_store.Base.{
  ℕ, zero, suc, ◌+◌, ◌^◌, ◌<◌, ◌≡◌, refl, sym, ap, ◌∙◌, List, [], ◌∷◌, ◌++◌, length, arith, All,
  IsByte,
}
use mathlib.Core.Path.{subst}
use mathlib.Core.List.{append-nil, append_assoc}
use pancake_store.Block.Host.{Host}
use pancake_store.Block.Bytes.{
  k_block_size, k_block_data_size, concat, of_be, of_be-lt, be_bytes, be_bytes-of_be,
}
use pancake_store.Block.Step.{int_bytes}
use pancake_store.Block.Step.Reads.{int_bytes-be}
use pancake_store.Block.Footer.{BlockFooter, FooterFits, footer_pieces}

-- Bytes cut in two.
pub record Cut (n m : ℕ) (bytes : List ℕ) : Type 0 where
  pub front : List ℕ
  pub back : List ℕ
  pub joined : bytes ≡ front ++ back
  pub front_size : length front ≡ n
  pub back_size : length back ≡ m
  pub front_bytes : All IsByte front
  pub back_bytes : All IsByte back

pub cut : (n m : ℕ) (bytes : List ℕ) → length bytes ≡ n + m → All IsByte bytes → Cut n m bytes
cut zero m bytes e h = record {
  front = [];
  back = bytes;
  joined = refl;
  front_size = refl;
  back_size = omega (arith, e);
  front_bytes = tt;
  back_bytes = h;
}
cut (suc n) m [] e h = absurd (omega arith)
cut (suc n) m (b ∷ bytes) e h =
    let c = cut n m bytes (omega arith) h.1 in
    record {
      front = b ∷ c.front;
      back = c.back;
      joined = ap (◌∷◌ b) c.joined;
      front_size = ap suc c.front_size;
      back_size = c.back_size;
      front_bytes = (h.0, c.front_bytes);
      back_bytes = c.back_bytes;
    }

-- One byte is a list of its value.
pub single :
    (bytes : List ℕ) → length bytes ≡ 1 → All IsByte bytes → (v : ℕ) × (bytes ≡ v ∷ []) × (v < 256)
single [] e h = absurd (omega arith)
single (v ∷ []) e h = (v, refl, h.0)
single (v ∷ w ∷ bytes) e h = absurd (omega arith)

-- Bytes are an integer in network order.
pub int_of :
    (host : Host) (w : ℕ) (bytes : List ℕ)
    → length bytes ≡ w
    → All IsByte bytes
    → (v : ℕ) × (bytes ≡ int_bytes host w v) × (v < 256 ^ w)
int_of host w bytes e h =
    let small : of_be bytes < 256 ^ w = subst (λ n. of_be bytes < 256 ^ n) e (of_be-lt bytes h) in
    (
      of_be bytes,
      sym (
          int_bytes-be host w (of_be bytes) small
          ∙ ap (λ n. be_bytes n (of_be bytes)) (sym e)
          ∙ be_bytes-of_be bytes h),
      small,
    )

rejoin :
    (p m v f l i r c : List ℕ) {bytes b0 b1 b2 b3 b4 b5 : List ℕ}
    → bytes ≡ p ++ b0
    → b0 ≡ m ++ b1
    → b1 ≡ v ++ b2
    → b2 ≡ f ++ b3
    → b3 ≡ l ++ b4
    → b4 ≡ i ++ b5
    → b5 ≡ r ++ c
    → bytes ≡ (p ++ concat (m ∷ v ∷ f ∷ l ∷ i ∷ r ∷ [])) ++ c
rejoin p m v f l i r c e0 e1 e2 e3 e4 e5 e6 =
    rw (e0, e1, e2, e3, e4, e5, e6) (simp (append_assoc, append-nil))

-- What `Serialize` makes of the data and of a footer, whatever its magic number and checksum.
abbrev pub block_bytes : Host → List ℕ → BlockFooter → List ℕ
block_bytes host payload f = (payload ++ concat (footer_pieces host f)) ++ int_bytes host 4 f.crc

pub record Parts (host : Host) (bytes : List ℕ) : Type 0 where
  pub payload : List ℕ
  pub footer : BlockFooter
  pub payload_size : length payload ≡ k_block_data_size
  pub payload_bytes : All IsByte payload
  pub footer_fits : FooterFits footer
  pub magic_fits : footer.magic < 256 ^ 4
  pub crc_fits : footer.crc < 256 ^ 4
  pub joined : bytes ≡ block_bytes host payload footer

-- Any bytes of the size of a block have these parts.
pub parts :
    (host : Host) (bytes : List ℕ)
    → length bytes ≡ k_block_size
    → All IsByte bytes
    → Parts host bytes
unfolding footer_pieces
parts host bytes e h =
    let c0 = cut 4064 32 bytes e h in
    let c1 = cut 4 28 c0.back c0.back_size c0.back_bytes in
    let c2 = cut 1 27 c1.back c1.back_size c1.back_bytes in
    let c3 = cut 1 26 c2.back c2.back_size c2.back_bytes in
    let c4 = cut 2 24 c3.back c3.back_size c3.back_bytes in
    let c5 = cut 8 16 c4.back c4.back_size c4.back_bytes in
    let c6 = cut 12 4 c5.back c5.back_size c5.back_bytes in
    let (magic, magic_eq, magic_lt) = int_of host 4 c1.front c1.front_size c1.front_bytes in
    let (version, version_eq, version_lt) = single c2.front c2.front_size c2.front_bytes in
    let (flag, flag_eq, flag_lt) = single c3.front c3.front_size c3.front_bytes in
    let (len, len_eq, len_lt) = int_of host 2 c4.front c4.front_size c4.front_bytes in
    let (id, id_eq, id_lt) = int_of host 8 c5.front c5.front_size c5.front_bytes in
    let (crc, crc_eq, crc_lt) = int_of host 4 c6.back c6.back_size c6.back_bytes in
    record {
      payload = c0.front;
      footer = record {
        magic = magic;
        version = version;
        flag = flag;
        data_length = len;
        extent_id = id;
        reserved = c6.front;
        crc = crc;
      };
      payload_size = c0.front_size;
      payload_bytes = c0.front_bytes;
      footer_fits = record {
        version_fits = version_lt;
        flag_fits = flag_lt;
        length_fits = len_lt;
        extent_id_fits = id_lt;
        reserved_size = c6.front_size;
        reserved_bytes = c6.front_bytes;
      };
      magic_fits = magic_lt;
      crc_fits = crc_lt;
      joined =
          rejoin c0.front (int_bytes host 4 magic) (version ∷ []) (flag ∷ []) (int_bytes host 2 len)
            (int_bytes host 8 id) c6.front (int_bytes host 4 crc) c0.joined
            (c1.joined ∙ ap (λ (x : List ℕ). x ++ c1.back) magic_eq)
            (c2.joined ∙ ap (λ (x : List ℕ). x ++ c2.back) version_eq)
            (c3.joined ∙ ap (λ (x : List ℕ). x ++ c3.back) flag_eq)
            (c4.joined ∙ ap (λ (x : List ℕ). x ++ c4.back) len_eq)
            (c5.joined ∙ ap (λ (x : List ℕ). x ++ c5.back) id_eq)
            (c6.joined ∙ ap (◌++◌ c6.front) crc_eq);
    }
