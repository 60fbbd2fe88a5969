-- ===== src/Scanning.antt =====
-- crates/quietwire-crypto-memtest/src/lib.rs: the allocator that counts freed blocks in which a secret
-- is left. The slots behind the mutex are the state; a method is an action on them, since each runs
-- under the lock. A `usize` has 64 bits. What `alloc` and `dealloc` forward to the system allocator
-- has no effect on the slots.
pub mod Wiped
pub mod Starts
pub mod Runs
pub mod Counts
mod Tests
use quietwire.Base.{
  ℕ, zero, suc, ◌+◌, ◌-◌, ◌%◌, ◌^◌, Bool, true, false, not, ◌&&◌, ◌||◌, Option, none, some, List,
  [], ◌∷◌, ◌++◌, map, ltb, leb, ◌==◌, if◌then◌else◌, length, take, replicate, update, get_elem?,
}
use quietwire.Base.{Result, ok, err, panic, ok_or}
use quietwire.Bytes.{Bytes}
use quietwire.FreedBlock.{FreedBlock, contains, is_all_zero}

abbrev pub max_watches : ℕ
max_watches = 16

abbrev pub max_pattern_len : ℕ
max_pattern_len = 64

pub data WatchError : Type 0 where
  invalid_pattern full : WatchError

-- The secret fills the front of an array of `max_pattern_len` zeroes.
pub record Pattern : Type 0 where
  pub bytes : Bytes
  pub len : ℕ

-- `secret.iter().any(|&b| b != 0)`.
abbrev pub any_nonzero : Bytes → Bool
any_nonzero [] = false
any_nonzero (b ∷ bs) = not (b == 0) || any_nonzero bs

-- `Pattern::new` and `Pattern::as_bytes`.
unfoldable pub pattern_of : Bytes → Option Pattern
pattern_of secret =
    if leb (length secret) max_pattern_len && any_nonzero secret
    then some (record {
      bytes = secret ++ replicate (max_pattern_len - length secret) 0;
      len = length secret;
    })
    else none

unfoldable pub as_bytes : Pattern → Bytes
as_bytes pattern = take pattern.len pattern.bytes

pub data Target : Type 0 where
  bytes : Pattern → Target
  blocks_of_size : ℕ → Target

pub record Slot : Type 0 where
  pub target : Target
  pub unwiped_frees : ℕ

-- `Target::is_left_in`, with what the memory holds.
unfoldable pub is_left_in : (memory : ℕ → ℕ) → FreedBlock → Target → Bool
unfolding as_bytes
is_left_in memory block (bytes pattern) = contains memory block (as_bytes pattern)
is_left_in memory block (blocks_of_size size) =
    (block.len == size) && not (is_all_zero memory block)

-- `Slot::inspect`.
unfoldable pub inspect_slot : (memory : ℕ → ℕ) → FreedBlock → Slot → Slot
unfolding is_left_in
inspect_slot memory block slot =
    if is_left_in memory block slot.target
    then record slot { unwiped_frees = (slot.unwiped_frees + 1) % 2 ^ 64 }
    else slot

-- `flatten` passes over the free slots.
abbrev pub inspect_used : (memory : ℕ → ℕ) → FreedBlock → Option Slot → Option Slot
inspect_used memory block none = none
inspect_used memory block (some slot) = some (inspect_slot memory block slot)

abbrev pub Slots : Type 0
Slots = List (Option Slot)

abbrev pub Action : Type 0 → Type 0
Action A = Slots → Result WatchError A × Slots

pub record Watch : Type 0 where
  pub index : ℕ

-- `ScanningAllocator::new`.
unfoldable pub new : Slots
new = replicate max_watches none

-- `slots[index] = value` panics out of bounds.
abbrev pub assign : ℕ → Option Slot → Action (Unit {0})
assign index value slots =
    if ltb index (length slots) then (ok tt, update slots index value) else (panic, slots)

-- `slots.iter().position(Option::is_none)`.
abbrev pub next_index : Option ℕ → Option ℕ
next_index none = none
next_index (some i) = some (suc i)

unfoldable pub first_free : Slots → Option ℕ
first_free [] = none
first_free (none ∷ slots) = some 0
first_free (some slot ∷ slots) = next_index (first_free slots)

abbrev pub watch_at : ℕ → Result WatchError (Unit {0}) × Slots → Result WatchError Watch × Slots
watch_at index (ok _, slots) = (ok (record { index = index }), slots)
watch_at index (err e, slots) = (err e, slots)
watch_at index (panic, slots) = (panic, slots)

unfoldable pub start_watch : Target → Action Watch
unfolding first_free
start_watch target slots = elim (first_free slots) [
  | none ↦ (err full, slots)
  | some index ↦
      watch_at index (assign index (some (record { target = target; unwiped_frees = 0 })) slots)
]

unfoldable pub watch_bytes : Bytes → Action Watch
unfolding pattern_of start_watch
watch_bytes secret slots = elim (pattern_of secret) [
  | none ↦ (err invalid_pattern, slots)
  | some pattern ↦ start_watch (bytes pattern) slots
]

unfoldable pub watch_blocks_of_size : ℕ → Action Watch
unfolding start_watch
watch_blocks_of_size size = start_watch (blocks_of_size size)

-- `ScanningAllocator::inspect`.
unfoldable pub inspect : (memory : ℕ → ℕ) → FreedBlock → Slots → Slots
unfolding inspect_slot
inspect memory block slots = map (inspect_used memory block) slots

-- `GlobalAlloc::dealloc`: the block is inspected before it goes back to the system.
unfoldable pub dealloc : (memory : ℕ → ℕ) → (ptr size : ℕ) → Slots → Slots
unfolding inspect
dealloc memory ptr size slots = inspect memory (record { start = ptr; len = size }) slots

abbrev pub frees_or_zero : Option Slot → ℕ
frees_or_zero none = 0
frees_or_zero (some slot) = slot.unwiped_frees

-- `Watch::unwiped_frees`; indexing panics out of bounds.
unfoldable pub unwiped_frees : Watch → Slots → Result WatchError ℕ
unwiped_frees watch slots = elim (get_elem? slots watch.index) [
  | none ↦ panic
  | some slot ↦ ok (frees_or_zero slot)
]

-- `Watch::drop`.
unfoldable pub drop_watch : Watch → Action (Unit {0})
drop_watch watch = assign watch.index none
