-- ===== src/Crypto/Secret/Pages.antt =====
-- crates/quietwire-crypto/src/secret.rs: the page that each secret key has to itself, its lock in RAM
-- and its drop. What the crate region locks and unlocks, what the crate zeroize writes and where the
-- allocator puts a page are parameters.
use quietwire.Base.{
  ℕ, zero, suc, ◌%◌, Bool, true, false, Option, none, some, List, [], ◌∷◌, get_elem?, ◌==◌,
  if◌then◌else◌, replicate,
}
use quietwire.Base.{Result, ok, err, panic}
use quietwire.Bytes.{Bytes}
use quietwire.Crypto.{Error}
use quietwire.Crypto.Secret.{key_len}

-- The size of `DedicatedPage`, which its alignment sets.
abbrev pub dedicated_page_size : ℕ
dedicated_page_size = 16384

-- What the code calls: `region::page::size()`, `region::lock(..).ok()` and the drop of its guard at an
-- address and a size, `zeroize`, and whether the build is for Miri.
pub record System (Os : Type 0) : Type 0 where
  pub miri : Bool
  pub page_size : ℕ
  pub lock : ℕ → ℕ → Os → Option Os
  pub unlock : ℕ → ℕ → Os → Os
  pub zeroize : Bytes → Bytes

-- A `SecretKey` in memory: the address of its page, whether there is a guard, and the bytes.
pub record Page : Type 0 where
  pub address : ℕ
  pub ram_lock : Bool
  pub bytes : Bytes

-- The live keys, and what the pages of the dropped ones held when they were freed.
pub record Memory (Os : Type 0) : Type 0 where
  pub os : Os
  pub keys : List Page
  pub freed : List Bytes

unfoldable pub without : ℕ → List Page → List Page
without i [] = []
without zero (k ∷ ks) = ks
without (suc i) (k ∷ ks) = k ∷ without i ks

-- A key is built in the page at an address, by `write`, or the key with an index is dropped.
pub data Action : Type 0 where
  build : (address : ℕ) (write : Bytes → Result Error Bytes) → Action
  release : (index : ℕ) → Action

unfoldable pub is_memory_locked : Page → Bool
is_memory_locked key = key.ram_lock

-- The guard, and the system as it is then.
abbrev pub guard : {Os : Type 0} → Option Os → Os → Bool × Os
guard none os = (false, os)
guard (some os') os = (true, os')

module _ {Os : Type 0} (system : System Os) where
  unfoldable pub lock_in_ram : ℕ → Os → Bool × Os
  lock_in_ram address os =
      if system.miri
      then (false, os)
      else (if dedicated_page_size % system.page_size == 0
          then guard (system.lock address dedicated_page_size os) os
          else (false, os))

  unfoldable pub zeroed : ℕ → Os → Page × Os
  zeroed address os = (
    record {
      address = address;
      ram_lock = (lock_in_ram address os).0;
      bytes = replicate key_len 0;
    },
    (lock_in_ram address os).1,
  )

  -- `Drop::drop`, then the drop of the guard: what the page holds when it is freed.
  unfoldable pub drop_key : Page → Os → Bytes × Os
  drop_key key os = (
    system.zeroize key.bytes,
    if key.ram_lock then system.unlock key.address dedicated_page_size os else os,
  )

  abbrev pub free : Page → Memory Os → Memory Os
  free key m = record {
    os = (drop_key key m.os).1;
    keys = m.keys;
    freed = (drop_key key m.os).0 ∷ m.freed;
  }

  -- A key whose bytes were not written is dropped on the way out.
  abbrev pub finish : Page → Result Error Bytes → Memory Os → Memory Os
  finish key (ok bytes) m = record m { keys = record key { bytes = bytes } ∷ m.keys }
  finish key (err e) m = free key m
  finish key panic m = free key m

  -- `build_in_place`, with its page.
  unfoldable pub build_in_page : ℕ → (Bytes → Result Error Bytes) → Memory Os → Memory Os
  unfolding zeroed
  build_in_page address write m =
      let (key, os) = zeroed address m.os in finish key (write key.bytes) (record m { os = os })

  abbrev pub release_found : Option Page → ℕ → Memory Os → Memory Os
  release_found none index m = m
  release_found (some key) index m = free key (record m { keys = without index m.keys })

  unfoldable pub step : Action → Memory Os → Memory Os
  unfolding build_in_page
  step (build address write) m = build_in_page address write m
  step (release index) m = release_found (get_elem? m.keys index) index m

  unfoldable pub run : List Action → Memory Os → Memory Os
  run [] m = m
  run (a ∷ actions) m = run actions (step a m)
