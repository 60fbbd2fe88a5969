-- ===== src/Ratchet/Skipped/Bounds.antt =====
-- How many keys `SkippedKeys` holds, and which.
use quietwire.Base.{
  ℕ, zero, suc, ◌+◌, ◌-◌, ◌≤◌, ◌≡◌, refl, ap, false, List, [], ◌∷◌, ◌++◌, map, arith, length, drop,
  All, length-drop, Bool-cases, inl, inr, All-append, All-drop,
}
use quietwire.Crypto.X25519.{PublicKey}
use quietwire.Ratchet.{Key, max_skip_per_chain, max_skipped_total}
use quietwire.Ratchet.Skipped.{
  SkippedKey, same_ratchet, count_in_chain, retain, evict_oldest_of_chain, with_ratchet, extend,
  remove,
}
use quietwire.Ratchet.Skipped.Eviction.{
  chain_of, count-length, evict_oldest_of_chain_lem, pop_excess_lem, same_ratchet→eq,
}

count-drop-le :
    (r : PublicKey) (n : ℕ) (ks : List SkippedKey)
    → count_in_chain r (drop n ks) ≤ count_in_chain r ks
unfolding count_in_chain
count-drop-le r zero ks = omega arith
count-drop-le r (suc n) [] = omega arith
count-drop-le r (suc n) (k ∷ ks) = omega (arith, count-drop-le r n ks)

count-retain-le :
    (r s : PublicKey) (n : ℕ) (ks : List SkippedKey)
    → count_in_chain s (retain r n ks) ≤ count_in_chain s ks
unfolding count_in_chain retain
count-retain-le r s n [] = omega arith
count-retain-le r s n (k ∷ ks) = ground (
  arith,
  count-retain-le r s n ks,
  count-retain-le r s (n - 1) ks,
  count-retain-le r s (n - 0) ks,
)

count-append :
    (r : PublicKey) (ks ls : List SkippedKey)
    → count_in_chain r (ks ++ ls) ≡ count_in_chain r ks + count_in_chain r ls
unfolding count_in_chain
count-append r [] ls = omega arith
count-append r (k ∷ ks) ls = omega (arith, count-append r ks ls)

count_of_other :
    (r s : PublicKey) (keys : List (ℕ × Key))
    → same_ratchet r s ≡ false
    → count_in_chain s (map (with_ratchet r) keys) ≡ 0
unfolding count_in_chain
count_of_other r s [] h = refl
count_of_other r s (e ∷ keys) h = rw h (omega (arith, count_of_other r s keys h))

count-evict-le :
    (r : PublicKey) (ks : List SkippedKey)
    → count_in_chain r (evict_oldest_of_chain r ks) ≤ max_skip_per_chain
count-evict-le r ks = omega (
  arith,
  count-length r (evict_oldest_of_chain r ks),
  ap length (evict_oldest_of_chain_lem r ks).0,
  length-drop (length (chain_of r ks) - max_skip_per_chain) (chain_of r ks),
)

-- At most 10 000 keys are held after any `extend`.
pub length-extend-le :
    (r : PublicKey) (keys : List (ℕ × Key)) (ks : List SkippedKey)
    → length (extend r keys ks) ≤ max_skipped_total
unfolding extend
length-extend-le r keys ks =
    let kept = evict_oldest_of_chain r (ks ++ map (with_ratchet r) keys) in
    omega
      (arith, ap length (pop_excess_lem kept), length-drop (length kept - max_skipped_total) kept)

-- And at most 1 000 of any chain, if that was so before.
pub count-extend-le :
    (r s : PublicKey) (keys : List (ℕ × Key)) (ks : List SkippedKey)
    → count_in_chain s ks ≤ max_skip_per_chain
    → count_in_chain s (extend r keys ks) ≤ max_skip_per_chain
unfolding extend
count-extend-le r s keys ks h = rw (pop_excess_lem kept) (omega (arith, popped, evicted))
  where
    all : List SkippedKey
    all = ks ++ map (with_ratchet r) keys

    kept : List SkippedKey
    kept = evict_oldest_of_chain r all

    popped : count_in_chain s (drop (length kept - max_skipped_total) kept) ≤ count_in_chain s kept
    popped = count-drop-le s (length kept - max_skipped_total) kept

    evicted : count_in_chain s kept ≤ max_skip_per_chain
    evicted = elim (Bool-cases (same_ratchet r s)) [
      | inl e ↦ rw (← same_ratchet→eq r s e) (count-evict-le r all)
      | inr e ↦
          unfold evict_oldest_of_chain in
          omega (
            arith,
            count-retain-le r s (count_in_chain r all - max_skip_per_chain) all,
            count-append s ks (map (with_ratchet r) keys),
            count_of_other r s keys e,
            h,
          )
    ]

module _ (Q : SkippedKey → Type 0) where
  retain-All : (r : PublicKey) (n : ℕ) (ks : List SkippedKey) → All Q ks → All Q (retain r n ks)
  unfolding retain
  retain-All r n [] h = tt
  retain-All r n (k ∷ ks) h =
      ground
        (arith, retain-All r n ks h.1, retain-All r (n - 1) ks h.1, retain-All r (n - 0) ks h.1)

  -- What holds of the old keys and of the new ones holds of all that are kept.
  pub extend-All :
      (r : PublicKey) (keys : List (ℕ × Key)) (ks : List SkippedKey)
      → All Q ks
      → All Q (map (with_ratchet r) keys)
      → All Q (extend r keys ks)
  unfolding extend evict_oldest_of_chain
  extend-All r keys ks h new = rw (pop_excess_lem kept) (
      All-drop Q (length kept - max_skipped_total) kept (
        retain-All r (count_in_chain r all - max_skip_per_chain) all
          (All-append Q ks (map (with_ratchet r) keys) h new)))
    where
      all : List SkippedKey
      all = ks ++ map (with_ratchet r) keys

      kept : List SkippedKey
      kept = evict_oldest_of_chain r all

  pub remove-All : (ks : List SkippedKey) (i : ℕ) → All Q ks → All Q (remove ks i)
  unfolding remove
  remove-All [] i h = tt
  remove-All (k ∷ ks) zero h = h.1
  remove-All (k ∷ ks) (suc i) h = (h.0, remove-All ks i h.1)

pub length-remove-le : (ks : List SkippedKey) (i : ℕ) → length (remove ks i) ≤ length ks
unfolding remove
length-remove-le [] i = omega arith
length-remove-le (k ∷ ks) zero = omega arith
length-remove-le (k ∷ ks) (suc i) = omega (arith, length-remove-le ks i)

pub count-remove-le :
    (r : PublicKey) (ks : List SkippedKey) (i : ℕ)
    → count_in_chain r (remove ks i) ≤ count_in_chain r ks
unfolding remove count_in_chain
count-remove-le r [] i = omega arith
count-remove-le r (k ∷ ks) zero = omega arith
count-remove-le r (k ∷ ks) (suc i) = omega (arith, count-remove-le r ks i)

-- After `extend` at most 10 000 keys are held, and at most 1 000 of any chain of which no more were
-- held before.
pub extend_bounds :
    (r s : PublicKey) (keys : List (ℕ × Key)) (ks : List SkippedKey)
    → count_in_chain s ks ≤ max_skip_per_chain
    → (length (extend r keys ks) ≤ max_skipped_total)
      × (count_in_chain s (extend r keys ks) ≤ max_skip_per_chain)
extend_bounds r s keys ks h = (length-extend-le r keys ks, count-extend-le r s keys ks h)
