-- ===== src/Crypto/Secret/Runs.antt =====
-- Any sequence of keys that are built and dropped.
use quietwire.Base.{
  ℕ, ◌≡◌, refl, ◌∙◌, inl, inr, List, [], ◌∷◌, get_elem?, All, All-get_elem?, Bool-cases,
  Option-cases, length, All-replicate, Bool,
}
use quietwire.Base.{Result, ok, err, panic}
use quietwire.Bytes.{Bytes}
use quietwire.Crypto.{Error}
use quietwire.Crypto.Secret.Pages.{
  dedicated_page_size, System, Page, Memory, without, Action, build, release, is_memory_locked,
  zeroed, drop_key, free, finish, build_in_page, step, run,
}
use quietwire.Crypto.Secret.Locks.{
  IsOutside, Apart, KeepsPromises, IsAllocated, AreAllocated, IsElsewhere, All-without,
  without-AreApart, IsPage, IsMemory, Same, keep_pages, whole_pages,
}
use quietwire.Crypto.Secret.Guards.{lock_in_ram-Guarded}

module _ {Os : Type 0} (system : System Os) (is_locked : Os → ℕ → Bool)
    (K : KeepsPromises system is_locked) where
  -- What an action at a page does: the invariant is kept, and nothing changes outside the page.
  record Stepped (address : ℕ) (m m' : Memory Os) : Type 0 where
    pub memory : IsMemory system is_locked m'
    pub others : (x : ℕ) → IsOutside x address → Same system is_locked m.os m'.os x

  drop_key-others :
      (key : Page) (os : Os)
      → IsPage system is_locked os key
      → (x : ℕ) → IsOutside x key.address
      → Same system is_locked os (drop_key system key os).1 x
  unfolding drop_key
  drop_key-others key os h x out = elim (Bool-cases key.ram_lock) [
    | inl held ↦ rw held (
        K.unlock_keeps key.address dedicated_page_size x os
          (whole_pages system is_locked key.address h.aligned (h.covers held)) (h.covers held) out)
    | inr free ↦ rw free refl
  ]

  drop_key-wiped : (key : Page) (os : Os) → All (λ b. b ≡ 0) (drop_key system key os).0
  unfolding drop_key
  drop_key-wiped key os =
      rw (K.wipes key.bytes) (All-replicate (λ b. b ≡ 0) (length key.bytes) 0 refl)

  free-Stepped :
      (key : Page) (m : Memory Os)
      → IsPage system is_locked m.os key
      → All (Apart key.address) m.keys
      → IsMemory system is_locked m
      → Stepped key.address m (free system key m)
  free-Stepped key m h apart v = record {
    memory = record {
      pages =
          keep_pages system is_locked key.address m.os (drop_key system key m.os).1 m.keys
            (drop_key-others key m.os h) apart v.pages;
      apart = v.apart;
      wiped = (drop_key-wiped key m.os, v.wiped);
    };
    others = drop_key-others key m.os h;
  }

  finish-Stepped :
      (key : Page) (written : Result Error Bytes) (m : Memory Os)
      → IsPage system is_locked m.os key
      → All (Apart key.address) m.keys
      → IsMemory system is_locked m
      → Stepped key.address m (finish system key written m)
  unfolding is_memory_locked
  finish-Stepped key (ok bytes) m h apart v = record {
    memory = record {
      pages = (record { aligned = h.aligned; covers = h.covers; locked = h.locked }, v.pages);
      apart = (apart, v.apart);
      wiped = v.wiped;
    };
    others = λ x out. refl;
  }
  finish-Stepped key (err e) m h apart v = free-Stepped key m h apart v
  finish-Stepped key panic m h apart v = free-Stepped key m h apart v

  build_in_page-Stepped :
      (address : ℕ) (write : Bytes → Result Error Bytes) (m : Memory Os)
      → IsAllocated (build address write) m
      → IsMemory system is_locked m
      → Stepped address m (build_in_page system address write m)
  unfolding build_in_page zeroed is_memory_locked
  build_in_page-Stepped address write m a v =
      let g = lock_in_ram-Guarded system is_locked K address m.os a.0 in
      let (key, os) = zeroed system address m.os in
      let s =
        finish-Stepped key (write key.bytes) (record m { os = os })
          (record { aligned = a.0; covers = g.covers; locked = g.locked }) a.1
          (record {
            pages = keep_pages system is_locked address m.os os m.keys g.others a.1 v.pages;
            apart = v.apart;
            wiped = v.wiped;
          }) in
      record { memory = s.memory; others = λ x out. s.others x out ∙ g.others x out }

  -- After an action: the invariant, and what was outside every page still is, and has not changed.
  record After (action : Action) (m m' : Memory Os) : Type 0 where
    pub memory : IsMemory system is_locked m'
    pub others :
        (x : ℕ)
        → All (λ k. IsOutside x k.address) m.keys
        → IsElsewhere x (action ∷ [])
        → Same system is_locked m.os m'.os x × All (λ k. IsOutside x k.address) m'.keys

  finish-IsOutside :
      (x : ℕ) (key : Page) (written : Result Error Bytes) (m : Memory Os)
      → IsOutside x key.address
      → All (λ k. IsOutside x k.address) m.keys
      → All (λ k. IsOutside x k.address) (finish system key written m).keys
  finish-IsOutside x key (ok bytes) m out h = (out, h)
  finish-IsOutside x key (err e) m out h = h
  finish-IsOutside x key panic m out h = h

  step-After :
      (action : Action) (m : Memory Os)
      → IsAllocated action m
      → IsMemory system is_locked m
      → After action m (step system action m)
  unfolding step build_in_page zeroed
  step-After (build address write) m a v =
      let s = build_in_page-Stepped address write m a v in
      record {
        memory = s.memory;
        others = λ x outside here. (
          s.others x here.0,
          finish-IsOutside x (zeroed system address m.os).0 _
              (record m { os = (zeroed system address m.os).1 }) here.0 outside,
        );
      }
  step-After (release index) m a v = elim (Option-cases (get_elem? m.keys index)) [
    | inl e ↦ rw (step, e) (record { memory = v; others = λ x outside here. (refl, outside) })
    | inr (key, e) ↦
        let (apart, rest) = without-AreApart index m.keys key e v.apart in
        let s =
          free-Stepped key (record m { keys = without index m.keys })
            (All-get_elem? (IsPage system is_locked m.os) m.keys index v.pages e) apart
            (record {
              pages = All-without (IsPage system is_locked m.os) index m.keys v.pages;
              apart = rest;
              wiped = v.wiped;
            }) in
        rw (step, e)
          (record {
            memory = s.memory;
            others = λ x outside here. (
              s.others x (All-get_elem? (λ k. IsOutside x k.address) m.keys index outside e),
              All-without (λ k. IsOutside x k.address) index m.keys outside,
            );
          })
  ]

  -- Keys come and go, in any order, some dropped because their bytes were not written. Then every
  -- live key that says that it is locked in RAM is, with its whole page; whether any byte is locked
  -- that is in none of the keys' pages has not changed, whatever the size of the operating system's
  -- pages; and every page was wiped before it was freed. The memory is as it should be at first, the
  -- allocator keeps the alignment and new pages apart from the live ones, and the crates region and
  -- zeroize keep their promises.
  pub run_lem :
      (actions : List Action) (m : Memory Os)
      → AreAllocated system actions m
      → IsMemory system is_locked m
      → IsMemory system is_locked (run system actions m)
        × ((x : ℕ)
            → All (λ k. IsOutside x k.address) m.keys
            → IsElsewhere x actions
            → is_locked (run system actions m).os x ≡ is_locked m.os x)
  unfolding run
  run_lem [] m a v = (v, λ x outside here. refl)
  run_lem (action ∷ actions) m a v =
      let s = step-After action m a.0 v in
      let (memory, others) = run_lem actions (step system action m) a.1 s.memory in
      (
        memory,
        λ x outside here.
            let (first, rest) = elsewhere x action actions here in
            let (same, outside') = s.others x outside first in others x outside' rest ∙ same,
      )
    where
      elsewhere :
          (x : ℕ) (action : Action) (actions : List Action)
          → IsElsewhere x (action ∷ actions)
          → IsElsewhere x (action ∷ []) × IsElsewhere x actions
      elsewhere x (build address write) actions h = ((h.0, tt), h.1)
      elsewhere x (release index) actions h = (tt, h)
