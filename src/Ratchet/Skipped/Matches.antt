-- ===== src/Ratchet/Skipped/Matches.antt =====
-- How many kept keys are for a frame, and how the operations of `SkippedKeys` change that.
use quietwire.Base.{
  ℕ, zero, suc, ◌+◌, ◌-◌, ◌≤◌, ◌≡◌, refl, ◌&&◌, none, some, List, [], ◌∷◌, ◌++◌, map, arith, length,
  length-append, length-map, length-select-le, ltb, leb, if◌then◌else◌, get_elem?,
}
use quietwire.Bytes.{beq_refl}
use quietwire.Crypto.{Primitives}
use quietwire.Crypto.X25519.{PublicKey}
use quietwire.Ratchet.{Key, max_skip_per_chain, max_skipped_total}
use quietwire.Ratchet.Header.{Header}
use quietwire.Ratchet.Chain.{kdf_chain}
use quietwire.Ratchet.Chain.Schedule.{keys_from}
use quietwire.Ratchet.Skipped.{
  SkippedKey, position, with_ratchet, remove, extend, evict_oldest_of_chain, retain, count_in_chain,
}
use quietwire.Ratchet.Skipped.Eviction.{count-length, in_chain, pop_excess_lem}
use quietwire.Ratchet.Skipped.Position.{is_for}

unfoldable pub matches : Header → List SkippedKey → ℕ
matches h [] = 0
matches h (k ∷ ks) = (if is_for h k then 1 else 0) + matches h ks

pub matches-append :
    (h : Header) (ks more : List SkippedKey)
    → matches h (ks ++ more) ≡ matches h ks + matches h more
unfolding matches
matches-append h [] more = omega arith
matches-append h (k ∷ ks) more = omega (arith, matches-append h ks more)

pub position-matches : (ks : List SkippedKey) (h : Header) → matches h ks ≡ 0 → position ks h ≡ none
unfolding position matches
position-matches [] h e = refl
position-matches (k ∷ ks) h e = ground (arith, position-matches ks h)

pub matches-position : (ks : List SkippedKey) (h : Header) → position ks h ≡ none → matches h ks ≡ 0
unfolding position matches
matches-position [] h e = refl
matches-position (k ∷ ks) h e = ground (arith, matches-position ks h)

pub matches-remove :
    (h : Header) (ks : List SkippedKey) (i : ℕ) {k : SkippedKey}
    → get_elem? ks i ≡ some k
    → (if is_for h k then 1 else 0) + matches h (remove ks i) ≡ matches h ks
unfolding matches remove
matches-remove h [] i e = cc
matches-remove h (x ∷ ks) zero e = ground arith
matches-remove h (x ∷ ks) (suc i) e = omega (arith, matches-remove h ks i e)

retain-zero : (r : PublicKey) (ks : List SkippedKey) → retain r 0 ks ≡ ks
unfolding retain
retain-zero r [] = refl
retain-zero r (k ∷ ks) = ground (arith, retain-zero r ks)

-- Up to 1 000 keys in all nothing is evicted.
pub extend_small :
    (r : PublicKey) (keys : List (ℕ × Key)) (ks : List SkippedKey)
    → length ks + length keys ≤ max_skip_per_chain
    → extend r keys ks ≡ ks ++ map (with_ratchet r) keys
unfolding extend evict_oldest_of_chain
extend_small r keys ks h =
    let all = ks ++ map (with_ratchet r) keys in
    let size : length all ≤ max_skip_per_chain =
      omega
        (arith, length-append ks (map (with_ratchet r) keys), length-map keys (with_ratchet r)) in
    let counted : count_in_chain r all ≤ length all =
      omega (arith, count-length r all, length-select-le (in_chain r) all) in
    let no_excess : count_in_chain r all - max_skip_per_chain ≡ 0 = omega arith in
    let no_more : length all - max_skipped_total ≡ 0 = omega arith in
    rw (no_excess, retain-zero r all, pop_excess_lem all, no_more) refl

-- The keys from `n` on match a frame of their chain once if its number is among theirs.
pub matches-keys_from :
    (P : Primitives) (h : Header) (key : Key) (n m : ℕ)
    → matches h (map (with_ratchet h.ratchet) (keys_from P key n m))
      ≡ (if leb n h.message_number && ltb h.message_number (n + m) then 1 else 0)
unfolding matches keys_from
matches-keys_from P h key n zero = ground arith
matches-keys_from P h key n (suc m) =
    ground (arith, beq_refl h.ratchet.as_bytes, matches-keys_from P h (kdf_chain P key).1 (suc n) m)
