-- ===== src/Bytes.antt =====
-- Byte strings: Rust's `[u8]`, `Vec<u8>` and `[u8; N]` as lists of numbers, their slices, their
-- equality, and the little-endian words of `u32::to_le_bytes` and `u32::from_le_bytes`.
use quietwire.Base.{
  ℕ, zero, suc, ◌+◌, ◌-◌, ◌*◌, ◌/◌, ◌%◌, ◌^◌, ◌<◌, ◌≡◌, refl, ap, ap₂, ◌∙◌, Bool, true, false, ◌&&◌,
  List, [], ◌∷◌, arith, ◌==◌, ==_refl, length, take, drop, All, ltb, ◌||◌, ◌≢◌,
}
use Prim.Native.Nat.{bit_xor}
use native.Mathlib.Nat.{pow-succ'}

abbrev pub Bytes : Type 0
Bytes = List ℕ

abbrev pub IsByte : ℕ → Type 0
IsByte b = b < 256

-- The values of `[u8; n]`.
abbrev pub IsArray : ℕ → Bytes → Type 0
IsArray n bs = (length bs ≡ n) × All IsByte bs

-- `bytes[lo..hi]` and `bytes[lo..]`.
abbrev pub slice : ℕ → ℕ → Bytes → Bytes
slice lo hi bs = take (hi - lo) (drop lo bs)

-- `==` on byte strings.
unfoldable pub beq : Bytes → Bytes → Bool
beq [] [] = true
beq [] (b ∷ bs) = false
beq (a ∷ as') [] = false
beq (a ∷ as') (b ∷ bs) = (a == b) && beq as' bs

pub beq_refl : (bs : Bytes) → beq bs bs ≡ true
unfolding beq
beq_refl [] = refl
beq_refl (b ∷ bs) = rw (==_refl b) (beq_refl bs)

pub beq→eq : (as' bs : Bytes) → beq as' bs ≡ true → as' ≡ bs
unfolding beq
beq→eq [] [] h = refl
beq→eq [] (b ∷ bs) h = cc
beq→eq (a ∷ as') [] h = cc
beq→eq (a ∷ as') (b ∷ bs) h = ap₂ ◌∷◌ (ground arith) (beq→eq as' bs (ground arith))

-- `n` in `w` bytes, the lowest first, and back.
unfoldable pub to_le_bytes : ℕ → ℕ → Bytes
to_le_bytes zero n = []
to_le_bytes (suc w) n = n % 256 ∷ to_le_bytes w (n / 256)

unfoldable pub from_le_bytes : Bytes → ℕ
from_le_bytes [] = 0
from_le_bytes (b ∷ bs) = b + 256 * from_le_bytes bs

pub length-to_le_bytes : (w n : ℕ) → length (to_le_bytes w n) ≡ w
unfolding to_le_bytes
length-to_le_bytes zero n = refl
length-to_le_bytes (suc w) n = ap suc (length-to_le_bytes w (n / 256))

pub to_le_bytes-IsByte : (w n : ℕ) → All IsByte (to_le_bytes w n)
unfolding to_le_bytes
to_le_bytes-IsByte zero n = tt
to_le_bytes-IsByte (suc w) n = (omega arith, to_le_bytes-IsByte w (n / 256))

pub from_le_bytes-to_le_bytes : (w n : ℕ) → n < 256 ^ w → from_le_bytes (to_le_bytes w n) ≡ n
unfolding from_le_bytes to_le_bytes
from_le_bytes-to_le_bytes zero n h = omega arith
from_le_bytes-to_le_bytes (suc w) n h =
    let lt : n / 256 < 256 ^ w = omega (arith, pow-succ' 256 w) in
    omega (arith, from_le_bytes-to_le_bytes w (n / 256) lt)

pub to_le_bytes-from_le_bytes :
    (bs : Bytes) → All IsByte bs → to_le_bytes (length bs) (from_le_bytes bs) ≡ bs
unfolding from_le_bytes to_le_bytes
to_le_bytes-from_le_bytes [] h = refl
to_le_bytes-from_le_bytes (b ∷ bs) h =
    ap₂ ◌∷◌ (omega arith) (rest ∙ to_le_bytes-from_le_bytes bs h.1)
  where
    div : (b + 256 * from_le_bytes bs) / 256 ≡ from_le_bytes bs
    div = omega (arith, h.0)

    rest :
        to_le_bytes (length bs) ((b + 256 * from_le_bytes bs) / 256)
        ≡ to_le_bytes (length bs) (from_le_bytes bs)
    rest = ap (to_le_bytes (length bs)) div

pub from_le_bytes-lt : (bs : Bytes) → All IsByte bs → from_le_bytes bs < 256 ^ length bs
unfolding from_le_bytes
from_le_bytes-lt [] h = omega arith
from_le_bytes-lt (b ∷ bs) h = omega (arith, from_le_bytes-lt bs h.1, pow-succ' 256 (length bs))

-- A test that holds of every number below a bound, by evaluation.
unfoldable pub all_below : ℕ → (ℕ → Bool) → Bool
all_below zero test = true
all_below (suc n) test = test n && all_below n test

pub below-all_below :
    (n : ℕ) (test : ℕ → Bool) (x : ℕ) → x < n → all_below n test ≡ true → test x ≡ true
unfolding all_below
below-all_below zero test x lt h = absurd (omega arith)
below-all_below (suc n) test x lt h = ground (arith, below-all_below n test x)

-- Every pair of bytes: xor stays a byte, and undoes itself.
xor_test : ℕ → ℕ → Bool
xor_test a b = ltb (bit_xor a b) 256 && (bit_xor (bit_xor a b) b == a)

xor_table : all_below 256 (λ a. all_below 256 (xor_test a)) ≡ true
unfolding xor_test all_below
xor_table = refl

pub xor_lem : (a b : ℕ) → a < 256 → b < 256 → (bit_xor a b < 256) × (bit_xor (bit_xor a b) b ≡ a)
unfolding xor_test
xor_lem a b ha hb =
    let h =
      below-all_below 256 (xor_test a) b hb
        (below-all_below 256 (λ c. all_below 256 (xor_test c)) a ha xor_table) in
    (ground arith, ground arith)

flip_table : all_below 256 (λ a. ltb (bit_xor a 0xff) a || ltb a (bit_xor a 0xff)) ≡ true
unfolding all_below
flip_table = refl

-- A byte with every bit turned is another byte.
pub flip_ne : (a : ℕ) → a < 256 → bit_xor a 0xff ≢ a
flip_ne a h e =
    let other =
      below-all_below 256 (λ a. ltb (bit_xor a 0xff) a || ltb a (bit_xor a 0xff)) a h flip_table in
    absurd (ground arith)
