-- ===== src/Ratchet/Skipped.antt =====
-- `SkippedKeys`: the message keys of frames that have not arrived yet, oldest first.
pub mod Eviction
pub mod Bounds
pub mod Position
pub mod Matches
use quietwire.Base.{
  ℕ, zero, suc, ◌+◌, ◌-◌, ◌&&◌, Bool, true, false, Option, none, some, List, [], ◌∷◌, ◌++◌, map,
  ltb, ◌==◌, if◌then◌else◌, length, drop,
}
use quietwire.Base.{Result, ok, panic}
use quietwire.Bytes.{Bytes, beq}
use quietwire.Crypto.X25519.{PublicKey}
use quietwire.Ratchet.{Key, Error, max_skip_per_chain, max_skipped_total}
use quietwire.Ratchet.Header.{Header}

pub record SkippedKey : Type 0 where
  pub ratchet : PublicKey
  pub number : ℕ
  pub key : Key

-- `==` on public keys.
abbrev pub same_ratchet : PublicKey → PublicKey → Bool
same_ratchet a b = beq a.as_bytes b.as_bytes

abbrev pub next_index : Option ℕ → Option ℕ
next_index none = none
next_index (some i) = some (suc i)

unfoldable pub position : List SkippedKey → Header → Option ℕ
position [] header = none
position (k ∷ ks) header =
    if same_ratchet k.ratchet header.ratchet && (k.number == header.message_number)
    then some 0
    else next_index (position ks header)

-- `self.0[index].key` panics out of bounds.
unfoldable pub key_at : List SkippedKey → ℕ → Result Error Key
key_at [] index = panic
key_at (k ∷ ks) zero = ok k.key
key_at (k ∷ ks) (suc index) = key_at ks index

-- `VecDeque::remove` does nothing out of bounds.
unfoldable pub remove : List SkippedKey → ℕ → List SkippedKey
remove [] index = []
remove (k ∷ ks) zero = ks
remove (k ∷ ks) (suc index) = k ∷ remove ks index

-- `iter().filter(..).count()`.
unfoldable pub count_in_chain : PublicKey → List SkippedKey → ℕ
count_in_chain ratchet [] = 0
count_in_chain ratchet (k ∷ ks) =
    (if same_ratchet k.ratchet ratchet then 1 else 0) + count_in_chain ratchet ks

-- The `retain` of `evict_oldest_of_chain`, whose closure counts `excess` down.
unfoldable pub retain : PublicKey → ℕ → List SkippedKey → List SkippedKey
retain ratchet excess [] = []
retain ratchet excess (k ∷ ks) =
    let evicted = ltb 0 excess && same_ratchet k.ratchet ratchet in
    let rest = retain ratchet (excess - (if evicted then 1 else 0)) ks in
    if evicted then rest else k ∷ rest

unfoldable pub evict_oldest_of_chain : PublicKey → List SkippedKey → List SkippedKey
unfolding count_in_chain retain
evict_oldest_of_chain ratchet ks =
    retain ratchet (count_in_chain ratchet ks - max_skip_per_chain) ks

-- `while self.0.len() > MAX_SKIPPED_TOTAL { self.0.pop_front(); }`
unfoldable pub pop_excess : List SkippedKey → List SkippedKey
pop_excess [] = []
pop_excess (k ∷ ks) =
    let rest = pop_excess ks in if ltb max_skipped_total (length (k ∷ ks)) then rest else k ∷ ks

abbrev pub with_ratchet : PublicKey → ℕ × Key → SkippedKey
with_ratchet ratchet (number, key) = record { ratchet = ratchet; number = number; key = key }

unfoldable pub extend : PublicKey → List (ℕ × Key) → List SkippedKey → List SkippedKey
unfolding evict_oldest_of_chain pop_excess
extend ratchet keys ks =
    pop_excess (evict_oldest_of_chain ratchet (ks ++ map (with_ratchet ratchet) keys))
