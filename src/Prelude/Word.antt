-- ===== src/Prelude/Word.antt =====
-- 32-bit words: wrap-around, the rotate-and-add loop of both checksums (the state machine rotates
-- by 8 bits, the protocol by 5), and what such a loop detects.
mod Or
use Or.{bit_or-disjoint}
use Prim.Native.Nat.{zero, suc, ℕ, ◌+◌, ◌-◌, ◌*◌, ◌/◌, ◌%◌, ◌^◌, ◌<◌, bit_or, suc}
use mathlib.Core.Path.{◌≡◌, refl, sym, ◌∙◌}
use mathlib.Core.List.{List, [], ◌∷◌, ◌++◌}
use native.Mathlib.Omega.{arith}

abbrev pub u32_mod : ℕ
u32_mod = 4294967296

-- `uint32_t` wraps.
abbrev pub u32 : ℕ → ℕ
u32 n = n % 4294967296

-- `(c << k) | (c >> (32 - k))` on a `uint32_t`.
unfoldable pub rotl32 : ℕ → ℕ → ℕ
rotl32 k c = bit_or (u32 (c * 2 ^ k)) (c / 2 ^ (32 - k))

-- The loop `c = rotl(c, k) + data[i]` from the start value `c`.
unfoldable pub fold_rotl : ℕ → ℕ → List ℕ → ℕ
unfolding rotl32
fold_rotl k c [] = c
fold_rotl k c (b ∷ bs) = fold_rotl k (u32 (rotl32 k c + b)) bs

-- A rotation that loses nothing: it maps words to words, one to one.
pub record IsRotation (k : ℕ) : Type 0 where
  pub bound : (c : ℕ) → c < u32_mod → rotl32 k c < u32_mod
  pub one_to_one : (c d : ℕ) → c < u32_mod → d < u32_mod → rotl32 k c ≡ rotl32 k d → c ≡ d

rotl32-eight : (c : ℕ) → c < u32_mod → rotl32 8 c ≡ c % 16777216 * 256 + c / 16777216
unfolding rotl32
rotl32-eight c h =
    let shifted : u32 (c * 256) ≡ c % 16777216 * 256 = omega arith in
    rw shifted (bit_or-disjoint 8 (c % 16777216) (c / 16777216) (omega arith))

rotl32-five : (c : ℕ) → c < u32_mod → rotl32 5 c ≡ c % 134217728 * 32 + c / 134217728
unfolding rotl32
rotl32-five c h =
    let shifted : u32 (c * 32) ≡ c % 134217728 * 32 = omega arith in
    rw shifted (bit_or-disjoint 5 (c % 134217728) (c / 134217728) (omega arith))

pub eight-IsRotation : IsRotation 8
eight-IsRotation = record {
  bound = λ c h. omega (arith, rotl32-eight c h);
  one_to_one = λ c d hc hd e. omega (arith, rotl32-eight c hc, rotl32-eight d hd);
}

pub five-IsRotation : IsRotation 5
five-IsRotation = record {
  bound = λ c h. omega (arith, rotl32-five c h);
  one_to_one = λ c d hc hd e. omega (arith, rotl32-five c hc, rotl32-five d hd);
}

u32-add_cancel : (x y b : ℕ) → x < u32_mod → y < u32_mod → u32 (x + b) ≡ u32 (y + b) → x ≡ y
u32-add_cancel x y b hx hy e = omega arith

-- Two bytes added to one word give different words.
u32-add_byte : (x b d : ℕ) → b < 256 → d < 256 → u32 (x + b) ≡ u32 (x + d) → b ≡ d
u32-add_byte x b d hb hd e = omega arith

module _ {k : ℕ} (rot : IsRotation k) where
  pub fold_rotl-lt : (c : ℕ) (bs : List ℕ) → c < u32_mod → fold_rotl k c bs < u32_mod
  unfolding fold_rotl
  fold_rotl-lt c [] h = h
  fold_rotl-lt c (b ∷ bs) h = fold_rotl-lt (u32 (rotl32 k c + b)) bs (omega arith)

  -- The rest of the loop carries a difference through to the end.
  pub fold_rotl_one_to_one :
      (c d : ℕ) (bs : List ℕ)
      → c < u32_mod
      → d < u32_mod
      → fold_rotl k c bs ≡ fold_rotl k d bs
      → c ≡ d
  unfolding fold_rotl
  fold_rotl_one_to_one c d [] hc hd e = e
  fold_rotl_one_to_one c d (b ∷ bs) hc hd e = rot.one_to_one c d hc hd (
      u32-add_cancel (rotl32 k c) (rotl32 k d) b (rot.bound c hc) (rot.bound d hd) (
        fold_rotl_one_to_one (u32 (rotl32 k c + b)) (u32 (rotl32 k d + b)) bs (omega arith)
          (omega arith) e))

  -- Two inputs that differ in one byte have different sums.
  pub fold_rotl_detects :
      (c : ℕ) (xs : List ℕ) (b d : ℕ) (ys : List ℕ)
      → c < u32_mod
      → b < 256
      → d < 256
      → fold_rotl k c (xs ++ b ∷ ys) ≡ fold_rotl k c (xs ++ d ∷ ys)
      → b ≡ d
  unfolding fold_rotl
  fold_rotl_detects c [] b d ys hc hb hd e = u32-add_byte (rotl32 k c) b d hb hd (
      fold_rotl_one_to_one (u32 (rotl32 k c + b)) (u32 (rotl32 k c + d)) ys (omega arith)
        (omega arith) e)
  fold_rotl_detects c (x ∷ xs) b d ys hc hb hd e =
      fold_rotl_detects (u32 (rotl32 k c + x)) xs b d ys (omega arith) hb hd e

-- The n bytes of a number in memory, lowest first.
abbrev pub le_bytes : ℕ → ℕ → List ℕ
le_bytes zero x = []
le_bytes (suc n) x = x % 256 ∷ le_bytes n (x / 256)

-- The number that bytes in memory stand for, lowest first.
abbrev pub from_le : List ℕ → ℕ
from_le [] = 0
from_le (b ∷ bs) = b + 256 * from_le bs
