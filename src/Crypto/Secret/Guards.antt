-- ===== src/Crypto/Secret/Guards.antt =====
-- The lock of a page: it covers the whole page or was not made, and it changes nothing else.
use quietwire.Base.{
  ℕ, ◌+◌, ◌%◌, ◌≤◌, ◌<◌, ◌≡◌, refl, inl, inr, true, false, arith, Option-cases, ◌==◌, if◌then◌else◌,
  Bool,
}
use quietwire.Crypto.Secret.Pages.{dedicated_page_size, System, guard, lock_in_ram}
use quietwire.Crypto.Secret.Locks.{IsOutside, KeepsPromises, Same, whole_pages}

module _ {Os : Type 0} (system : System Os) (is_locked : Os → ℕ → Bool)
    (K : KeepsPromises system is_locked) where
  -- What a lock gives: the whole page if there is a guard, and nothing else.
  pub record Guarded (address : ℕ) (os : Os) (r : Bool × Os) : Type 0 where
    pub covers : r.0 ≡ true → dedicated_page_size % system.page_size ≡ 0
    pub locked :
        r.0 ≡ true
        → (x : ℕ) → address ≤ x
        → x < address + dedicated_page_size
        → is_locked r.1 x ≡ true
    pub others : (x : ℕ) → IsOutside x address → Same system is_locked os r.1 x

  unlocked : (address : ℕ) (os : Os) → Guarded address os (false, os)
  unlocked address os = record {
    covers = λ e. absurd (cc);
    locked = λ e x le lt. absurd (cc);
    others = λ x out. refl;
  }

  locked_pages :
      (address : ℕ) (os : Os)
      → address % dedicated_page_size ≡ 0
      → dedicated_page_size % system.page_size ≡ 0
      → Guarded address os (guard (system.lock address dedicated_page_size os) os)
  locked_pages address os h whole =
      elim (Option-cases (system.lock address dedicated_page_size os)) [
        | inl e ↦ rw e (unlocked address os)
        | inr (os', e) ↦ rw e (record {
          covers = λ _. whole;
          locked = λ _ x le lt. K.locks address dedicated_page_size x os os' e le lt;
          others = λ x out.
              K.lock_keeps address dedicated_page_size x os os'
                (whole_pages system is_locked address h whole) whole e out;
        })
      ]

  pub lock_in_ram-Guarded :
      (address : ℕ) (os : Os)
      → address % dedicated_page_size ≡ 0
      → Guarded address os (lock_in_ram system address os)
  unfolding lock_in_ram
  lock_in_ram-Guarded address os h =
      if-Guarded system.miri _ _ (λ miri. unlocked address os)
        (λ other.
          if-Guarded (dedicated_page_size % system.page_size == 0) _ _
            (λ whole. locked_pages address os h (ground arith)) (λ parts. unlocked address os))
    where
      if-Guarded :
          (b : Bool) (r r' : Bool × Os)
          → (b ≡ true → Guarded address os r)
          → (b ≡ false → Guarded address os r')
          → Guarded address os (if b then r else r')
      if-Guarded true r r' h h' = h refl
      if-Guarded false r r' h h' = h' refl
