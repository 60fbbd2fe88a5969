-- ===== src/Scanning/Wiped.antt =====
-- Patterns, and why a wiped block is never counted.
use quietwire.Base.{
  ℕ, ◌-◌, ◌≤◌, ◌<◌, ◌≡◌, refl, sym, ap₂, subst, ◌⊎◌, inl, inr, true, false, Option, none, some, [],
  ◌∷◌, ◌++◌, arith, ◌==◌, length, take-append, replicate, Bool-cases, All, All-append_left,
  All-append_right, All-replicate,
}
use quietwire.Bytes.{Bytes}
use quietwire.FreedBlock.{FreedBlock, contains, is_all_zero}
use quietwire.FreedBlock.Scan.{contents, contains_iff, is_all_zero_iff}
use quietwire.Scanning.{
  Pattern, any_nonzero, pattern_of, as_bytes, Target, bytes, blocks_of_size, Slot, Slots,
  is_left_in, inspect_slot, inspect_used, inspect, max_pattern_len, max_watches,
}
use native.Mathlib.Decide.{dec_le}

pub any_nonzero-All : (bs : Bytes) → any_nonzero bs ≡ true → ¬ All (λ b. b ≡ 0) bs
any_nonzero-All [] h v = cc
any_nonzero-All (b ∷ bs) h v = elim (Bool-cases (b == 0)) [
  | inl z ↦ any_nonzero-All bs (ground arith) v.1
  | inr other ↦ absurd (ground (arith, v.0))
]

-- The two ways in which a secret could not be told from wiped memory, or does not fit.
abbrev pub IsUnrecognisable : Bytes → Type 0
IsUnrecognisable secret = (max_pattern_len < length secret) ⊎ All (λ b. b ≡ 0) secret

any_nonzero_none : (bs : Bytes) → any_nonzero bs ≡ false → All (λ b. b ≡ 0) bs
any_nonzero_none [] h = tt
any_nonzero_none (b ∷ bs) h = (ground arith, any_nonzero_none bs (ground arith))

pub pattern_of-cases :
    (secret : Bytes)
    → (IsUnrecognisable secret × (pattern_of secret ≡ none))
      ⊎ ((p : Pattern) × (pattern_of secret ≡ some p)
          × (length secret ≤ max_pattern_len)
          × (any_nonzero secret ≡ true)
          × (as_bytes p ≡ secret))
unfolding pattern_of as_bytes
pattern_of-cases secret = elim (dec_le (length secret) max_pattern_len) [
  | no long ↦ inl (inl (omega arith), ground arith)
  | yes fits ↦ elim (Bool-cases (any_nonzero secret)) [
    | inr zero_bytes ↦ inl (inr (any_nonzero_none secret zero_bytes), ground arith)
    | inl nonzero ↦ inr (
      record {
        bytes = secret ++ replicate (max_pattern_len - length secret) 0;
        len = length secret;
      },
      ground arith,
      fits,
      nonzero,
      take-append (length secret) secret _ refl,
    )
  ]
]

-- What a watch looks for can be told from wiped memory.
abbrev pub IsTarget : Target → Type 0
IsTarget (bytes pattern) = any_nonzero (as_bytes pattern) ≡ true
IsTarget (blocks_of_size size) = Unit {0}

abbrev pub IsSlot : Option Slot → Type 0
IsSlot none = Unit {0}
IsSlot (some slot) = IsTarget slot.target

pub record IsSlots (slots : Slots) : Type 0 where
  pub size : length slots ≡ max_watches
  pub each : All IsSlot slots

module _ (memory : ℕ → ℕ) (block : FreedBlock) (wiped : is_all_zero memory block ≡ true) where
  contents-zero : All (λ b. b ≡ 0) (contents memory block)
  contents-zero =
      subst (All (λ b. b ≡ 0)) (sym ((is_all_zero_iff memory block).0 wiped))
        (All-replicate (λ b. b ≡ 0) block.len 0 refl)

  not_contained :
      (pattern : Bytes) → any_nonzero pattern ≡ true → contains memory block pattern ≡ false
  not_contained pattern nonzero = elim (Bool-cases (contains memory block pattern)) [
    | inr f ↦ f
    | inl found ↦
        let (pre, post, e) = (contains_iff memory block pattern).0 found in
        let zeroes = subst (All (λ b. b ≡ 0)) e contents-zero in
        absurd (
          any_nonzero-All pattern nonzero (
            All-append_left (λ b. b ≡ 0) pattern post
              (All-append_right (λ b. b ≡ 0) pre (pattern ++ post) zeroes)))
  ]

  not_left : (target : Target) → IsTarget target → is_left_in memory block target ≡ false
  unfolding is_left_in
  not_left (bytes pattern) v = not_contained (as_bytes pattern) v
  not_left (blocks_of_size size) v = ground arith

  inspect_used_wiped : (slot : Option Slot) → IsSlot slot → inspect_used memory block slot ≡ slot
  unfolding inspect_slot
  inspect_used_wiped none v = refl
  inspect_used_wiped (some slot) v = rw (not_left slot.target v) refl

  pub inspect_wiped : (slots : Slots) → All IsSlot slots → inspect memory block slots ≡ slots
  unfolding inspect
  inspect_wiped [] v = refl
  inspect_wiped (slot ∷ slots) v = ap₂ ◌∷◌ (inspect_used_wiped slot v.0) (inspect_wiped slots v.1)
