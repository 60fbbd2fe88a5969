-- ===== src/Scanning/Runs.antt =====
-- The calls that a program makes, and the invariant of the slots after any sequence of them.
use quietwire.Base.{
  ℕ, zero, suc, ◌≡◌, refl, ap, ◌∙◌, inl, inr, true, Bool-cases, Option, none, some, List, [], ◌∷◌,
  arith, ltb, length, update, length-update, All, All-replicate, length-map,
}
use quietwire.Bytes.{Bytes}
use quietwire.FreedBlock.{FreedBlock, is_all_zero}
use quietwire.Scanning.{
  Target, bytes, Slot, Slots, Watch, new, start_watch, watch_bytes, watch_blocks_of_size, inspect,
  inspect_slot, inspect_used, dealloc, drop_watch, max_watches, blocks_of_size, any_nonzero,
}
use quietwire.Scanning.Wiped.{inspect_wiped, IsTarget, IsSlot, IsSlots}
use quietwire.Scanning.Starts.{start_watch-cases, watch_bytes-cases}

-- A call of the allocator, or of a watch, that a program makes.
pub data Event : Type 0 where
  secret_watched : Bytes → Event
  size_watched : ℕ → Event
  watch_dropped : Watch → Event
  block_freed : (memory : ℕ → ℕ) → (ptr size : ℕ) → Event

unfoldable pub after : Event → Slots → Slots
after (secret_watched secret) slots = (watch_bytes secret slots).1
after (size_watched size) slots = (watch_blocks_of_size size slots).1
after (watch_dropped watch) slots = (drop_watch watch slots).1
after (block_freed memory ptr size) slots = dealloc memory ptr size slots

abbrev pub run : List Event → Slots → Slots
run [] slots = slots
run (event ∷ events) slots = run events (after event slots)

-- The invariant of the allocator: the slots keep their number, and what they look for could not be
-- found in wiped memory.
All-update :
    (slots : Slots) (i : ℕ) (slot : Option Slot)
    → All IsSlot slots
    → IsSlot slot
    → All IsSlot (update slots i slot)
All-update [] i slot h v = tt
All-update (x ∷ xs) zero slot h v = (v, h.1)
All-update (x ∷ xs) (suc i) slot h v = (h.0, All-update xs i slot h.1 v)

start_watch-IsSlots :
    (target : Target) (slots : Slots)
    → IsTarget target
    → IsSlots slots
    → IsSlots ((start_watch target slots).1)
start_watch-IsSlots target slots v h = elim (start_watch-cases target slots) [
  | inl (used, full) ↦ rw full h
  | inr (i, free, e) ↦
      rw e
        (record { size = length-update slots i _ ∙ h.size; each = All-update slots i _ h.each v })
]

inspect-IsSlot :
    (memory : ℕ → ℕ) (block : FreedBlock) (slots : Slots)
    → All IsSlot slots
    → All IsSlot (inspect memory block slots)
unfolding inspect inspect_slot
inspect-IsSlot memory block [] h = tt
inspect-IsSlot memory block (none ∷ slots) h = (tt, inspect-IsSlot memory block slots h.1)
inspect-IsSlot memory block (some slot ∷ slots) h =
    (ground (arith, h.0), inspect-IsSlot memory block slots h.1)

drop_watch-IsSlots : (w : Watch) (slots : Slots) → IsSlots slots → IsSlots ((drop_watch w slots).1)
unfolding drop_watch
drop_watch-IsSlots w slots h = elim (Bool-cases (ltb w.index (length slots))) [
  | inl inside ↦
      rw (inside, drop_watch)
        (record {
          size = length-update slots w.index none ∙ h.size;
          each = All-update slots w.index none h.each tt;
        })
  | inr outside ↦ rw (outside, drop_watch) h
]

after-IsSlots : (event : Event) (slots : Slots) → IsSlots slots → IsSlots (after event slots)
unfolding after dealloc watch_blocks_of_size
after-IsSlots (secret_watched secret) slots h = elim (watch_bytes-cases secret slots) [
  | inl (bad, refused) ↦ rw (refused, after) h
  | inr (p, kept, fits, nonzero, started) ↦
      rw (started, after) (start_watch-IsSlots (bytes p) slots (ap any_nonzero kept ∙ nonzero) h)
]
after-IsSlots (size_watched size) slots h = start_watch-IsSlots (blocks_of_size size) slots tt h
after-IsSlots (watch_dropped w) slots h = drop_watch-IsSlots w slots h
after-IsSlots (block_freed memory ptr size) slots h = record {
  size = length-map slots (inspect_used memory (record { start = ptr; len = size })) ∙ h.size;
  each = inspect-IsSlot memory _ slots h.each;
}

pub new-IsSlots : IsSlots new
unfolding new
new-IsSlots = record { size = refl; each = All-replicate IsSlot max_watches none tt }

pub run-IsSlots : (events : List Event) (slots : Slots) → IsSlots slots → IsSlots (run events slots)
run-IsSlots [] slots h = h
run-IsSlots (event ∷ events) slots h =
    run-IsSlots events (after event slots) (after-IsSlots event slots h)

-- Whatever the program did before, freeing a block that is all zero changes no slot, so no watch ever
-- counts wiped memory.
pub dealloc-wiped :
    (events : List Event) (memory : ℕ → ℕ) (ptr size : ℕ)
    → is_all_zero memory (record { start = ptr; len = size }) ≡ true
    → dealloc memory ptr size (run events new) ≡ run events new
unfolding dealloc
dealloc-wiped events memory ptr size wiped =
    inspect_wiped memory (record { start = ptr; len = size }) wiped (run events new)
      (run-IsSlots events new new-IsSlots).each
