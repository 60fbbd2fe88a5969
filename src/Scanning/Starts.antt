-- ===== src/Scanning/Starts.antt =====
-- Which slot a watch takes, and when it cannot start.
use quietwire.Base.{
  ℕ, suc, ◌≤◌, ◌≡◌, refl, sym, ap, ◌∙◌, ◌⊎◌, inl, inr, true, Option, none, some, [], ◌∷◌, subst,
  arith, length, update, get_elem?, lt_of_get_elem?, All,
}
use quietwire.Base.{ok, err}
use quietwire.Bytes.{Bytes}
use quietwire.Scanning.{
  Pattern, Target, bytes, Slot, Slots, Watch, full, invalid_pattern, first_free, start_watch,
  watch_bytes, as_bytes, any_nonzero, max_pattern_len,
}
use quietwire.Scanning.Wiped.{any_nonzero-All, pattern_of-cases, IsUnrecognisable}

-- The slot of a watch that has counted `count` blocks.
abbrev pub slot_of : Target → ℕ → Option Slot
slot_of target count = some (record { target = target; unwiped_frees = count })

abbrev pub IsUsed : Option Slot → Type 0
IsUsed none = ⊥
IsUsed (some slot) = Unit {0}

pub first_free-cases :
    (slots : Slots)
    → ((first_free slots ≡ none) × All IsUsed slots)
      ⊎ ((i : ℕ) × (first_free slots ≡ some i) × (get_elem? slots i ≡ some none))
unfolding first_free
first_free-cases [] = inl (refl, tt)
first_free-cases (none ∷ slots) = inr (0, refl, refl)
first_free-cases (some slot ∷ slots) = elim (first_free-cases slots) [
  | inl (e, used) ↦ inl (rw e refl, (tt, used))
  | inr (i, e, free) ↦ inr (suc i, rw e refl, free)
]

pub start_watch-cases :
    (target : Target) (slots : Slots)
    → (All IsUsed slots × (start_watch target slots ≡ (err full, slots)))
      ⊎ ((i : ℕ) × (get_elem? slots i ≡ some none)
          × (start_watch target slots
              ≡ (ok (record { index = i }), update slots i (slot_of target 0))))
unfolding start_watch
start_watch-cases target slots = elim (first_free-cases slots) [
  | inl (e, used) ↦ inl (used, rw (e, start_watch) refl)
  | inr (i, e, free) ↦
      let inside = lt_of_get_elem? slots i free in inr (i, free, rw (e, start_watch) (ground arith))
]

pub watch_bytes-cases :
    (secret : Bytes) (slots : Slots)
    → (IsUnrecognisable secret × (watch_bytes secret slots ≡ (err invalid_pattern, slots)))
      ⊎ ((p : Pattern) × (as_bytes p ≡ secret)
          × (length secret ≤ max_pattern_len)
          × (any_nonzero secret ≡ true)
          × (watch_bytes secret slots ≡ start_watch (bytes p) slots))
unfolding watch_bytes
watch_bytes-cases secret slots = elim (pattern_of-cases secret) [
  | inl (bad, e) ↦ inl (bad, rw (e, watch_bytes) refl)
  | inr (p, e, fits, nonzero, kept) ↦ inr (p, kept, fits, nonzero, rw (e, watch_bytes) refl)
]

-- What a start that succeeds has done.
pub started_lem :
    (target : Target) (slots slots' : Slots) (w : Watch)
    → start_watch target slots ≡ (ok w, slots')
    → (get_elem? slots w.index ≡ some none) × (slots' ≡ update slots w.index (slot_of target 0))
started_lem target slots slots' w started = elim (start_watch-cases target slots) [
  | inl (used, e) ↦ absurd (cc)
  | inr (i, free, e) ↦
      let same_watch : ◌≡◌ {A = Watch} (record { index = i }) w = cc in
      let same = ap (λ (v : Watch). v.index) same_watch in
      (
        subst (λ j. get_elem? slots j ≡ some none) same free,
        sym (ap (λ p. p.1) (sym e ∙ started)) ∙ ap (λ j. update slots j (slot_of target 0)) same,
      )
]

recognisable :
    (secret : Bytes)
    → length secret ≤ max_pattern_len
    → any_nonzero secret ≡ true
    → ¬ IsUnrecognisable secret
recognisable secret fits nonzero (inl long) = absurd (omega arith)
recognisable secret fits nonzero (inr zeroes) = any_nonzero-All secret nonzero zeroes

-- A secret is refused as invalid exactly when it is longer than 64 bytes or has only zeroes, the empty
-- one included; a valid one is refused exactly when no slot is free. Either way the slots stay as they
-- were. Otherwise one free slot, with its count at zero, looks for exactly the bytes of the secret.
pub watch_bytes_lem :
    (secret : Bytes) (slots : Slots)
    → (IsUnrecognisable secret × (watch_bytes secret slots ≡ (err invalid_pattern, slots)))
      ⊎ ((¬ IsUnrecognisable secret)
          × All IsUsed slots
          × (watch_bytes secret slots ≡ (err full, slots)))
      ⊎ ((¬ IsUnrecognisable secret)
          × ((i : ℕ) × (p : Pattern) × (get_elem? slots i ≡ some none)
              × (as_bytes p ≡ secret)
              × (watch_bytes secret slots
                  ≡ (ok (record { index = i }), update slots i (slot_of (bytes p) 0)))))
watch_bytes_lem secret slots = elim (watch_bytes-cases secret slots) [
  | inl refused ↦ inl refused
  | inr (p, kept, fits, nonzero, starts) ↦ elim (start_watch-cases (bytes p) slots) [
    | inl (used, e) ↦ inr (inl (recognisable secret fits nonzero, used, starts ∙ e))
    | inr (i, free, e) ↦
        inr (inr (recognisable secret fits nonzero, (i, p, free, kept, starts ∙ e)))
  ]
]
