-- ===== src/Crypto/Secret/Locks.antt =====
-- Which memory is locked in RAM while keys come and go: the pages of the keys that say so, and
-- nothing else.
use quietwire.Base.{
  ℕ, zero, suc, ◌+◌, ◌%◌, ◌≤◌, ◌<◌, ◌≡◌, ◌∙◌, subst, ◌⊎◌, inl, inr, Bool, true, some, List, [], ◌∷◌,
  get_elem?, arith, All, All-get_elem?, length, replicate,
}
use quietwire.Bytes.{Bytes}
use quietwire.Crypto.Secret.Pages.{
  dedicated_page_size, System, Page, Memory, without, Action, build, release, is_memory_locked,
  step,
}
use native.Mathlib.Nat.{dvd_trans, dvd_of_mod-eq-zero, mod-eq-zero_of_dvd}

-- Not in the page at an address.
abbrev pub IsOutside : (x address : ℕ) → Type 0
IsOutside x address = (x < address) ⊎ (address + dedicated_page_size ≤ x)

-- Two pages have no byte in common.
abbrev pub Apart : ℕ → Page → Type 0
Apart address key =
    (address + dedicated_page_size ≤ key.address) ⊎ (key.address + dedicated_page_size ≤ address)

abbrev pub AreApart : List Page → Type 0
AreApart [] = Unit {0}
AreApart (k ∷ ks) = All (Apart k.address) ks × AreApart ks

-- What the crate region and the crate zeroize promise. A lock covers its range; on whole pages of the
-- operating system a lock or an unlock changes nothing outside its range; zeroize leaves zeroes.
pub record KeepsPromises {Os : Type 0} (system : System Os) (is_locked : Os → ℕ → Bool)
    : Type 0 where
  pub locks :
      (address size x : ℕ) (os os' : Os)
      → system.lock address size os ≡ some os'
      → address ≤ x
      → x < address + size
      → is_locked os' x ≡ true
  pub lock_keeps :
      (address size x : ℕ) (os os' : Os)
      → address % system.page_size ≡ 0
      → size % system.page_size ≡ 0
      → system.lock address size os ≡ some os'
      → (x < address) ⊎ (address + size ≤ x)
      → is_locked os' x ≡ is_locked os x
  pub unlock_keeps :
      (address size x : ℕ) (os : Os)
      → address % system.page_size ≡ 0
      → size % system.page_size ≡ 0
      → (x < address) ⊎ (address + size ≤ x)
      → is_locked (system.unlock address size os) x ≡ is_locked os x
  pub wipes : (bytes : Bytes) → system.zeroize bytes ≡ replicate (length bytes) 0

-- The allocator puts a new page on a multiple of its alignment, apart from the live ones.
abbrev pub IsAllocated : {Os : Type 0} → Action → Memory Os → Type 0
IsAllocated (build address write) m =
    (address % dedicated_page_size ≡ 0) × All (Apart address) m.keys
IsAllocated (release index) m = Unit {0}

abbrev pub AreAllocated : {Os : Type 0} → System Os → List Action → Memory Os → Type 0
AreAllocated system [] m = Unit {0}
AreAllocated system (a ∷ actions) m =
    IsAllocated a m × AreAllocated system actions (step system a m)

-- Not in a page that is built.
abbrev pub IsElsewhere : ℕ → List Action → Type 0
IsElsewhere x [] = Unit {0}
IsElsewhere x (build address write ∷ actions) = IsOutside x address × IsElsewhere x actions
IsElsewhere x (release index ∷ actions) = IsElsewhere x actions

pub Apart-IsOutside :
    (address x : ℕ) (k : Page)
    → Apart address k
    → k.address ≤ x
    → x < k.address + dedicated_page_size
    → IsOutside x address
Apart-IsOutside address x k (inl before) h h' = inr (omega arith)
Apart-IsOutside address x k (inr after) h h' = inl (omega arith)

Apart-sym : (a b : Page) → Apart a.address b → Apart b.address a
Apart-sym a b (inl h) = inr h
Apart-sym a b (inr h) = inl h

pub All-without : (Q : Page → Type 0) (i : ℕ) (ks : List Page) → All Q ks → All Q (without i ks)
unfolding without
All-without Q i [] h = tt
All-without Q zero (k ∷ ks) h = h.1
All-without Q (suc i) (k ∷ ks) h = (h.0, All-without Q i ks h.1)

-- The other keys are apart from the one that is taken out.
pub without-AreApart :
    (i : ℕ) (ks : List Page) (k : Page)
    → get_elem? ks i ≡ some k
    → AreApart ks
    → All (Apart k.address) (without i ks) × AreApart (without i ks)
unfolding without
without-AreApart i [] k e h = cc
without-AreApart zero (x ∷ ks) k e h =
    let same : x ≡ k = cc in (subst (λ (y : Page). All (Apart y.address) ks) same h.0, h.1)
without-AreApart (suc i) (x ∷ ks) k e h =
    let rest = without-AreApart i ks k e h.1 in
    let here = All-get_elem? (Apart x.address) ks i h.0 e in
    ((Apart-sym x k here, rest.0), (All-without (Apart x.address) i ks h.0, rest.1))

module _ {Os : Type 0} (system : System Os) (is_locked : Os → ℕ → Bool) where
  -- A key that says so is locked, all its page.
  pub record IsPage (os : Os) (key : Page) : Type 0 where
    pub aligned : key.address % dedicated_page_size ≡ 0
    pub covers : key.ram_lock ≡ true → dedicated_page_size % system.page_size ≡ 0
    pub locked :
        is_memory_locked key ≡ true
        → (x : ℕ) → key.address ≤ x
        → x < key.address + dedicated_page_size
        → is_locked os x ≡ true

  pub record IsMemory (m : Memory Os) : Type 0 where
    pub pages : All (IsPage m.os) m.keys
    pub apart : AreApart m.keys
    pub wiped : All (All (λ b. b ≡ 0)) m.freed

  abbrev pub Same : Os → Os → ℕ → Type 0
  Same os os' x = is_locked os' x ≡ is_locked os x

  -- Other keys stay locked when nothing changes outside a page.
  pub keep_pages :
      (address : ℕ) (os os' : Os) (ks : List Page)
      → ((x : ℕ) → IsOutside x address → Same os os' x)
      → All (Apart address) ks
      → All (IsPage os) ks
      → All (IsPage os') ks
  keep_pages address os os' [] same apart h = tt
  keep_pages address os os' (k ∷ ks) same apart h = (
    record {
      aligned = h.0.aligned;
      covers = h.0.covers;
      locked =
          λ e x le lt. same x (Apart-IsOutside address x k apart.0 le lt) ∙ h.0.locked e x le lt;
    },
    keep_pages address os os' ks same apart.1 h.1,
  )

  pub whole_pages :
      (address : ℕ)
      → address % dedicated_page_size ≡ 0
      → dedicated_page_size % system.page_size ≡ 0
      → address % system.page_size ≡ 0
  whole_pages address h h' = mod-eq-zero_of_dvd system.page_size (
      dvd_trans system.page_size (dvd_of_mod-eq-zero system.page_size h')
        (dvd_of_mod-eq-zero dedicated_page_size h))
