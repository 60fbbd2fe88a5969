-- ===== src/FreedBlock.antt =====
-- crates/quietwire-crypto-memtest/src/freed_block.rs: the scan of a freed block for a secret. What
-- the load instruction reads at an address is a parameter.
pub mod Scan
mod Tests
use quietwire.Base.{
  ℕ, zero, suc, ◌+◌, ◌-◌, Bool, true, false, ◌&&◌, ◌||◌, Option, none, some, List, [], ◌∷◌, ltb,
  ◌==◌, if◌then◌else◌, length,
}
use quietwire.Bytes.{Bytes}

pub record FreedBlock : Type 0 where
  pub start : ℕ
  pub len : ℕ

-- `self.byte(offset) == Some(expected)`.
abbrev pub holds : Option ℕ → ℕ → Bool
holds none expected = false
holds (some byte) expected = byte == expected

module _ (load_byte : ℕ → ℕ) (block : FreedBlock) where
  unfoldable pub byte : ℕ → Option ℕ
  byte offset = if ltb offset block.len then some (load_byte (block.start + offset)) else none

  -- `(0..self.len).all(..)`, from an offset on.
  unfoldable pub zero_from : (count offset : ℕ) → Bool
  unfolding byte
  zero_from zero offset = true
  zero_from (suc count) offset = holds (byte offset) 0 && zero_from count (suc offset)

  unfoldable pub is_all_zero : Bool
  unfolding zero_from
  is_all_zero = zero_from block.len 0

  unfoldable pub matches_at : (start : ℕ) → Bytes → Bool
  unfolding byte
  matches_at start [] = true
  matches_at start (expected ∷ pattern) =
      holds (byte start) expected && matches_at (suc start) pattern

  -- `(0..=last_start).any(..)`, from a start on.
  unfoldable pub matches_from : (count start : ℕ) → Bytes → Bool
  unfolding matches_at
  matches_from zero start pattern = false
  matches_from (suc count) start pattern =
      matches_at start pattern || matches_from count (suc start) pattern

  unfoldable pub contains : Bytes → Bool
  unfolding matches_from
  contains pattern =
      if ltb block.len (length pattern)
      then false
      else matches_from (suc (block.len - length pattern)) 0 pattern
