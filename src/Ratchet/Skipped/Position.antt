-- ===== src/Ratchet/Skipped/Position.antt =====
-- Which key `SkippedKeys::position` finds.
use quietwire.Base.{
  ℕ, zero, suc, ◌<◌, ◌≡◌, ◌≢◌, refl, Bool, true, false, ◌&&◌, Option, none, some, List, [], ◌∷◌,
  map, arith, All, ◌==◌, get_elem?,
}
use quietwire.Base.{ok}
use quietwire.Crypto.X25519.{PublicKey}
use quietwire.Ratchet.{Key}
use quietwire.Ratchet.Header.{Header}
use quietwire.Ratchet.Skipped.{
  SkippedKey, same_ratchet, position, next_index, key_at, with_ratchet, extend,
}
use quietwire.Ratchet.Skipped.Bounds.{extend-All}

-- The test of `position`: the key is for a frame with this header.
abbrev pub is_for : Header → SkippedKey → Bool
is_for header k = same_ratchet k.ratchet header.ratchet && (k.number == header.message_number)

abbrev pub NotFor : Header → SkippedKey → Type 0
NotFor header k = is_for header k ≡ false

pub position-none : (ks : List SkippedKey) (h : Header) → position ks h ≡ none → All (NotFor h) ks
unfolding position
position-none [] h e = tt
position-none (k ∷ ks) h e = (ground arith, position-none ks h (ground arith))

pub none_of_All : (ks : List SkippedKey) (h : Header) → All (NotFor h) ks → position ks h ≡ none
unfolding position
none_of_All [] h v = refl
none_of_All (k ∷ ks) h v = rw (v.0, none_of_All ks h v.1)

next_index-ne-zero : (o : Option ℕ) → next_index o ≢ some 0
next_index-ne-zero none e = cc
next_index-ne-zero (some i) e = ground arith

next_index-suc : (o : Option ℕ) (i : ℕ) → next_index o ≡ some (suc i) → o ≡ some i
next_index-suc none i e = cc
next_index-suc (some j) i e = ground arith

-- The index that is found holds a key for the frame, so reading it does not panic.
pub position-some :
    (ks : List SkippedKey) (h : Header) (i : ℕ)
    → position ks h ≡ some i
    → (k : SkippedKey) × (get_elem? ks i ≡ some k) × (is_for h k ≡ true) × (key_at ks i ≡ ok k.key)
unfolding position key_at
position-some [] h i e = cc
position-some (k ∷ ks) h zero e =
    (k, refl, ground (arith, next_index-ne-zero (position ks h)), refl)
position-some (k ∷ ks) h (suc i) e =
    position-some ks h i (ground (arith, next_index-suc (position ks h) i))

-- Keys of another chain, or with lower numbers, are not for the frame.
others-NotFor :
    (h : Header) (r : PublicKey) (keys : List (ℕ × Key))
    → same_ratchet r h.ratchet ≡ false
    → All (NotFor h) (map (with_ratchet r) keys)
others-NotFor h r [] other = tt
others-NotFor h r (e ∷ keys) other = (rw other, others-NotFor h r keys other)

lower-NotFor :
    (h : Header) (r : PublicKey) (keys : List (ℕ × Key))
    → All (λ e. e.0 < h.message_number) keys
    → All (NotFor h) (map (with_ratchet r) keys)
lower-NotFor h r [] v = tt
lower-NotFor h r ((n, key) ∷ keys) v = (ground arith, lower-NotFor h r keys v.1)

-- A frame for which no key was kept has none after keys of other chains or lower numbers join.
pub position-extend_other :
    (h : Header) (r : PublicKey) (keys : List (ℕ × Key)) (ks : List SkippedKey)
    → position ks h ≡ none
    → same_ratchet r h.ratchet ≡ false
    → position (extend r keys ks) h ≡ none
position-extend_other h r keys ks e other =
    none_of_All (extend r keys ks) h
      (extend-All (NotFor h) r keys ks (position-none ks h e) (others-NotFor h r keys other))

pub position-extend_lower :
    (h : Header) (r : PublicKey) (keys : List (ℕ × Key)) (ks : List SkippedKey)
    → position ks h ≡ none
    → All (λ e. e.0 < h.message_number) keys
    → position (extend r keys ks) h ≡ none
position-extend_lower h r keys ks e lower =
    none_of_All (extend r keys ks) h
      (extend-All (NotFor h) r keys ks (position-none ks h e) (lower-NotFor h r keys lower))
