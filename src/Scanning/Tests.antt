-- ===== src/Scanning/Tests.antt =====
-- The theorems about the scanning allocator, applied to a watch on a secret of three bytes and to
-- a few freed blocks.
use quietwire.Base.{
  ℕ, ◌≡◌, ◌⊎◌, ◌%◌, ◌^◌, refl, true, none, some, List, [], ◌∷◌, arith, leb, if◌then◌else◌, update,
  get_elem?, All, replicate,
}
use quietwire.Base.{ok, err}
use quietwire.Bytes.{Bytes}
use quietwire.FreedBlock.{contains, is_all_zero}
use quietwire.Scanning.{
  Pattern, Slots, Target, bytes, Watch, invalid_pattern, full, new, as_bytes, first_free,
  pattern_of, start_watch, watch_bytes, unwiped_frees, dealloc,
}
use quietwire.Scanning.Wiped.{IsUnrecognisable}
use quietwire.Scanning.Starts.{slot_of, IsUsed, watch_bytes_lem}
use quietwire.Scanning.Runs.{
  Event, run, secret_watched, size_watched, watch_dropped, block_freed, dealloc-wiped,
}
use quietwire.Scanning.Counts.{watched_secret, count_left}

-- The byte at an address is the address, up to 99.
abbrev memory : ℕ → ℕ
memory address = if leb address 99 then address else 0

abbrev secret : Bytes
secret = 41 ∷ 42 ∷ 43 ∷ []

abbrev watched : Slots
watched =
    update new 0 (slot_of (bytes (record { bytes = 41 ∷ 42 ∷ 43 ∷ replicate 61 0; len = 3 })) 0)

abbrev first : Watch
first = record { index = 0 }

starts : watch_bytes secret new ≡ (ok first, watched)
unfolding new first_free pattern_of start_watch watch_bytes
starts = refl

-- The block at 40 holds the secret, the one at 100 was wiped and the one at 42 has a part of it.
abbrev events : List Event
events =
    block_freed memory 40 8
    ∷ size_watched 16
    ∷ block_freed memory 100 8
    ∷ watch_dropped (record { index = 1 })
    ∷ block_freed memory 42 8
    ∷ secret_watched (0 ∷ [])
    ∷ []

watch_bytes_lem_example :
    (IsUnrecognisable secret × (watch_bytes secret watched ≡ (err invalid_pattern, watched)))
    ⊎ ((¬ IsUnrecognisable secret)
        × All IsUsed watched
        × (watch_bytes secret watched ≡ (err full, watched)))
    ⊎ ((¬ IsUnrecognisable secret)
        × ((i : ℕ) × (p : Pattern) × (get_elem? watched i ≡ some none)
            × (as_bytes p ≡ secret)
            × (watch_bytes secret watched
                ≡ (ok (record { index = i }), update watched i (slot_of (bytes p) 0)))))
watch_bytes_lem_example = watch_bytes_lem secret watched

watched_secret_example :
    unwiped_frees first (run events watched)
    ≡ ok (count_left (λ memory block. contains memory block secret) events % 2 ^ 64)
watched_secret_example = watched_secret secret new watched first events starts (omega arith)

wiped : is_all_zero memory (record { start = 100; len = 8 }) ≡ true
unfolding is_all_zero
wiped = refl

dealloc-wiped_example :
    dealloc memory 100 8 (run (secret_watched secret ∷ []) new)
    ≡ run (secret_watched secret ∷ []) new
dealloc-wiped_example = dealloc-wiped (secret_watched secret ∷ []) memory 100 8 wiped

abbrev target : Target
target = bytes (record { bytes = 41 ∷ 42 ∷ 43 ∷ replicate 61 0; len = 3 })

started : start_watch target new ≡ (ok first, watched)
unfolding new first_free start_watch
started = refl
