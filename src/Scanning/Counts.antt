-- ===== src/Scanning/Counts.antt =====
-- A watch counts exactly the freed blocks in which its secret is left, and leaves nothing behind.
use quietwire.Base.{
  ℕ, ◌+◌, ◌%◌, ◌^◌, ◌≡◌, ◌≢◌, refl, sym, ap, ◌∙◌, subst, inl, inr, Bool, Bool-cases, not, ◌&&◌,
  ◌==◌, none, some, List, [], ◌∷◌, arith, get_elem?, get_elem?-update_same, get_elem?-update_ne,
  get_elem?-map, lt_of_get_elem?, All, if◌then◌else◌,
}
use quietwire.Base.{ok}
use quietwire.Bytes.{Bytes}
use quietwire.FreedBlock.{FreedBlock, contains, is_all_zero}
use quietwire.Scanning.{
  Target, bytes, Slot, Slots, Watch, start_watch, watch_bytes, watch_blocks_of_size, inspect,
  inspect_slot, inspect_used, dealloc, is_left_in, unwiped_frees, drop_watch, blocks_of_size,
}
use quietwire.Scanning.Starts.{slot_of, started_lem, start_watch-cases, watch_bytes-cases}
use quietwire.Scanning.Runs.{
  Event, after, run, secret_watched, size_watched, watch_dropped, block_freed,
}

-- How many of the freed blocks pass a test.
abbrev pub left_by : ((ℕ → ℕ) → FreedBlock → Bool) → Event → ℕ
left_by test (block_freed memory ptr size) =
    if test memory (record { start = ptr; len = size }) then 1 else 0
left_by test (secret_watched secret) = 0
left_by test (size_watched size) = 0
left_by test (watch_dropped watch) = 0

abbrev pub count_left : ((ℕ → ℕ) → FreedBlock → Bool) → List Event → ℕ
count_left test [] = 0
count_left test (event ∷ events) = left_by test event + count_left test events

abbrev pub left_in : Target → (ℕ → ℕ) → FreedBlock → Bool
left_in target memory block = is_left_in memory block target

abbrev pub Keeps : Watch → Event → Type 0
Keeps w (watch_dropped other) = other.index ≢ w.index
Keeps w (secret_watched secret) = Unit {0}
Keeps w (size_watched size) = Unit {0}
Keeps w (block_freed memory ptr size) = Unit {0}

-- A started watch takes a free slot, so the slot of another watch stays as it is.
start_watch_other :
    (target : Target) (slots : Slots) (i : ℕ) (slot : Slot)
    → get_elem? slots i ≡ some (some slot)
    → get_elem? ((start_watch target slots).1) i ≡ some (some slot)
start_watch_other target slots i slot e = elim (start_watch-cases target slots) [
  | inl (used, full) ↦ rw full e
  | inr (j, free, started) ↦ rw started (
      get_elem?-update_ne slots j i _ (λ (same : j ≡ i). absurd (cc (ap (get_elem? slots) same)))
      ∙ e)
]

watch_bytes_other :
    (secret : Bytes) (slots : Slots) (i : ℕ) (slot : Slot)
    → get_elem? slots i ≡ some (some slot)
    → get_elem? ((watch_bytes secret slots).1) i ≡ some (some slot)
watch_bytes_other secret slots i slot e = elim (watch_bytes-cases secret slots) [
  | inl (bad, refused) ↦ rw refused e
  | inr (p, kept, fits, nonzero, started) ↦ rw started (start_watch_other (bytes p) slots i slot e)
]

drop_watch_other :
    (w : Watch) (slots : Slots) (i : ℕ)
    → w.index ≢ i
    → get_elem? ((drop_watch w slots).1) i ≡ get_elem? slots i
unfolding drop_watch
drop_watch_other w slots i other =
    let kept = get_elem?-update_ne slots w.index i none other in ground (arith, kept)

none_added : (count : ℕ) → 0 + count ≡ count
none_added count = omega arith

after_lem :
    (event : Event) (slots : Slots) (target : Target) (w : Watch) (count : ℕ)
    → get_elem? slots w.index ≡ some (slot_of target (count % 2 ^ 64))
    → Keeps w event
    → get_elem? (after event slots) w.index
      ≡ some (slot_of target ((left_by (left_in target) event + count) % 2 ^ 64))
unfolding after dealloc inspect inspect_slot watch_blocks_of_size
after_lem (secret_watched secret) slots target w count e keeps =
    rw (none_added count) (watch_bytes_other secret slots w.index _ e)
after_lem (size_watched size) slots target w count e keeps =
    rw (none_added count) (start_watch_other (blocks_of_size size) slots w.index _ e)
after_lem (watch_dropped other) slots target w count e keeps =
    rw (none_added count) (drop_watch_other other slots w.index keeps ∙ e)
after_lem (block_freed memory ptr size) slots target w count e keeps =
    get_elem?-map (inspect_used memory (record { start = ptr; len = size })) slots w.index e
    ∙ ap some (elim (Bool-cases (is_left_in memory (record { start = ptr; len = size }) target)) [
      | inl left ↦
          let wraps : (count % 2 ^ 64 + 1) % 2 ^ 64 ≡ (1 + count) % 2 ^ 64 = omega arith in
          rw (left, wraps) refl
      | inr wiped ↦ rw (wiped, none_added count) refl
    ])

run_lem :
    (events : List Event) (slots : Slots) (target : Target) (w : Watch) (count : ℕ)
    → get_elem? slots w.index ≡ some (slot_of target (count % 2 ^ 64))
    → All (Keeps w) events
    → get_elem? (run events slots) w.index
      ≡ some (slot_of target ((count + count_left (left_in target) events) % 2 ^ 64))
run_lem [] slots target w count e keeps = rw (the_sum count) e
  where
    the_sum : (n : ℕ) → n + 0 ≡ n
    the_sum n = omega arith
run_lem (event ∷ events) slots target w count e keeps =
    let rest =
      run_lem events (after event slots) target w (left_by (left_in target) event + count)
        (after_lem event slots target w count e keeps.0) keeps.1 in
    let sum : left_by (left_in target) event + count + count_left (left_in target) events
        ≡ count + (left_by (left_in target) event + count_left (left_in target) events) =
      omega arith in
    subst
      (λ n. get_elem? (run events (after event slots)) w.index ≡ some (slot_of target (n % 2 ^ 64)))
      sum rest

pub watched_frees :
    (target : Target) (slots slots' : Slots) (w : Watch) (events : List Event)
    → start_watch target slots ≡ (ok w, slots')
    → All (Keeps w) events
    → unwiped_frees w (run events slots') ≡ ok (count_left (left_in target) events % 2 ^ 64)
unfolding unwiped_frees
watched_frees target slots slots' w events started keeps =
    let (free, e) = started_lem target slots slots' w started in
    let here =
      get_elem?-update_same slots w.index (slot_of target 0) (lt_of_get_elem? slots w.index free) in
    rw
      (
        run_lem events slots' target w 0 (rw e here) keeps,
        none_added (count_left (left_in target) events),
        unwiped_frees,
      )
      refl

-- A started watch counts exactly the blocks freed with the secret in them, whatever else the program
-- watches, drops and frees, until it is dropped; the count wraps at the width of a `usize`.
pub watched_secret :
    (secret : Bytes) (slots slots' : Slots) (w : Watch) (events : List Event)
    → watch_bytes secret slots ≡ (ok w, slots')
    → All (Keeps w) events
    → unwiped_frees w (run events slots')
      ≡ ok (count_left (λ memory block. contains memory block secret) events % 2 ^ 64)
unfolding is_left_in
watched_secret secret slots slots' w events started keeps = elim (watch_bytes-cases secret slots) [
  | inl (bad, e) ↦ absurd (cc)
  | inr (p, kept, fits, nonzero, starts) ↦
      subst
        (λ s.
          unwiped_frees w (run events slots')
          ≡ ok (count_left (λ memory block. contains memory block s) events % 2 ^ 64))
        kept (watched_frees (bytes p) slots slots' w events (sym starts ∙ started) keeps)
]

-- The same for a watch on a size: it counts the freed blocks of that size that are not all zero.
pub watched_size :
    (size : ℕ) (slots slots' : Slots) (w : Watch) (events : List Event)
    → watch_blocks_of_size size slots ≡ (ok w, slots')
    → All (Keeps w) events
    → unwiped_frees w (run events slots')
      ≡ ok (
          count_left (λ memory block. (block.len == size) && not (is_all_zero memory block)) events
          % 2 ^ 64)
unfolding is_left_in watch_blocks_of_size
watched_size size slots slots' w events started keeps =
    watched_frees (blocks_of_size size) slots slots' w events started keeps
