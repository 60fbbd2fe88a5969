-- ===== src/Crypto/Secret/Tests.antt =====
-- The theorem about the pages of keys, applied to an operating system that is its locked addresses.
use quietwire.Base.{
  ℕ, ◌+◌, ◌≤◌, ◌<◌, ◌≡◌, refl, subst, ◌⊎◌, inl, inr, Bool, true, false, some, List, [], ◌∷◌, arith,
  All, leb, ltb, ◌&&◌, if◌then◌else◌, length, replicate,
}
use quietwire.Base.{ok, err}
use quietwire.Crypto.{rng}
use quietwire.Crypto.Secret.Pages.{
  System, Memory, Action, build, release, zeroed, build_in_page, step, run,
}
use quietwire.Crypto.Secret.Locks.{IsOutside, KeepsPromises, AreAllocated, IsElsewhere, IsMemory}
use quietwire.Crypto.Secret.Runs.{run_lem}

abbrev Locked : Type 0
Locked = ℕ → Bool

abbrev in_range : ℕ → ℕ → ℕ → Bool
in_range address size x = leb address x && ltb x (address + size)

abbrev system : System Locked
system = record {
  miri = false;
  page_size = 4096;
  lock = λ address size os. some (λ x. if in_range address size x then true else os x);
  unlock = λ address size os x. if in_range address size x then false else os x;
  zeroize = λ bytes. replicate (length bytes) 0;
}

abbrev is_locked : Locked → ℕ → Bool
is_locked os x = os x

outside_range :
    (address size x : ℕ) → (x < address) ⊎ (address + size ≤ x) → in_range address size x ≡ false
outside_range address size x (inl h) = ground arith
outside_range address size x (inr h) = ground arith

system-KeepsPromises : KeepsPromises system is_locked
system-KeepsPromises = record {
  locks = λ address size x os os' e le lt.
      let same : (λ (y : ℕ). if in_range address size y then true else os y) ≡ os' = cc in
      let here : in_range address size x ≡ true = ground arith in
      subst (λ (f : Locked). f x ≡ true) same (rw here refl);
  lock_keeps = λ address size x os os' h h' e out.
      let same : (λ (y : ℕ). if in_range address size y then true else os y) ≡ os' = cc in
      let there = outside_range address size x out in
      subst (λ (f : Locked). f x ≡ os x) same (rw there refl);
  unlock_keeps =
      λ address size x os h h' out. let there = outside_range address size x out in rw there refl;
  wipes = λ bytes. refl;
}

-- A key; one whose bytes the generator did not give; a key; and the first one is dropped.
abbrev actions : List Action
actions =
    build 16384 (λ _. ok (replicate 32 1))
    ∷ build 32768 (λ _. err rng)
    ∷ build 65536 (λ _. ok (replicate 32 2))
    ∷ release 1
    ∷ []

abbrev empty : Memory Locked
empty = record { os = λ x. false; keys = []; freed = [] }

actions-AreAllocated : AreAllocated system actions empty
unfolding step build_in_page zeroed
actions-AreAllocated =
    ((refl, tt), ((refl, (inr (omega arith), tt)), ((refl, (inr (omega arith), tt)), (tt, tt))))

run_lem_example :
    IsMemory system is_locked (run system actions empty)
    × ((x : ℕ)
        → All (λ k. IsOutside x k.address) empty.keys
        → IsElsewhere x actions
        → is_locked (run system actions empty).os x ≡ is_locked empty.os x)
run_lem_example =
    run_lem system is_locked system-KeepsPromises actions empty actions-AreAllocated
      (record { pages = tt; apart = tt; wiped = tt })
