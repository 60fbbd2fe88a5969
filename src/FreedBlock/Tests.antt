-- ===== src/FreedBlock/Tests.antt =====
-- The theorems about the scan of a freed block, applied to a block of eight bytes.
use quietwire.Base.{ℕ, ◌≡◌, ◌↔◌, true, [], ◌∷◌, ◌++◌}
use quietwire.Bytes.{Bytes}
use quietwire.FreedBlock.{FreedBlock, contains}
use quietwire.FreedBlock.Scan.{contents, contains_iff}

-- The byte at an address is the address.
abbrev memory : ℕ → ℕ
memory address = address

abbrev block : FreedBlock
block = record { start = 40; len = 8 }

contains_iff_example :
    (contains memory block (46 ∷ 47 ∷ []) ≡ true)
    ↔ ((pre post : Bytes) × (contents memory block ≡ pre ++ ((46 ∷ 47 ∷ []) ++ post)))
contains_iff_example = contains_iff memory block (46 ∷ 47 ∷ [])
