-- ===== src/Ratchet/Skipped/Eviction.antt =====
-- What `SkippedKeys::extend` keeps: the newest keys of the chain, then the newest of all.
use quietwire.Base.{
  ℕ, zero, suc, ◌-◌, ◌≡◌, refl, ap, ◌∙◌, sym, Bool, true, not, ◌&&◌, List, [], ◌∷◌, ◌++◌, map,
  arith, ltb, length, drop, select, Bool-cases, inl, inr, lt→ltb, le→not_ltb, drop-nil,
}
use quietwire.Bytes.{beq→eq}
use quietwire.Crypto.X25519.{PublicKey}
use quietwire.Ratchet.{Key, max_skip_per_chain, max_skipped_total}
use quietwire.Ratchet.Skipped.{
  SkippedKey, same_ratchet, count_in_chain, retain, evict_oldest_of_chain, pop_excess, with_ratchet,
  extend,
}
use native.Mathlib.Decide.{dec_lt}
use mathlib.Core.List.{Sublist, nil-sublist}
use mathlib.Core.List.Sublist

pub same_ratchet→eq : (a b : PublicKey) → same_ratchet a b ≡ true → a ≡ b
same_ratchet→eq a b h = λ i. record { as_bytes = beq→eq a.as_bytes b.as_bytes h i }

abbrev pub in_chain : PublicKey → SkippedKey → Bool
in_chain ratchet k = same_ratchet k.ratchet ratchet

abbrev pub chain_of : PublicKey → List SkippedKey → List SkippedKey
chain_of ratchet = select (in_chain ratchet)

abbrev pub outside : PublicKey → List SkippedKey → List SkippedKey
outside ratchet = select (λ k. not (in_chain ratchet k))

pub count-length :
    (r : PublicKey) (ks : List SkippedKey) → count_in_chain r ks ≡ length (chain_of r ks)
unfolding count_in_chain select
count-length r [] = refl
count-length r (k ∷ ks) = ground (arith, count-length r ks)

retain-chain_of :
    (r : PublicKey) (n : ℕ) (ks : List SkippedKey)
    → chain_of r (retain r n ks) ≡ drop n (chain_of r ks)
unfolding retain select
retain-chain_of r n [] = sym (drop-nil n)
retain-chain_of r zero (k ∷ ks) = ground (arith, retain-chain_of r zero ks)
retain-chain_of r (suc n) (k ∷ ks) =
    let less : suc n - 1 ≡ n = omega arith in
    let same : suc n - 0 ≡ suc n = omega arith in
    ground (arith, less, same, retain-chain_of r n ks, retain-chain_of r (suc n) ks)

retain-outside :
    (r : PublicKey) (n : ℕ) (ks : List SkippedKey) → outside r (retain r n ks) ≡ outside r ks
unfolding retain select
retain-outside r n [] = refl
retain-outside r n (k ∷ ks) = ground (arith, retain-outside r n ks, retain-outside r (n - 1) ks)

-- Beyond 1 000 keys of its chain, eviction drops the oldest of them and nothing else.
pub evict_oldest_of_chain_lem :
    (r : PublicKey) (ks : List SkippedKey)
    → (chain_of r (evict_oldest_of_chain r ks)
        ≡ drop (length (chain_of r ks) - max_skip_per_chain) (chain_of r ks))
      × (outside r (evict_oldest_of_chain r ks) ≡ outside r ks)
unfolding evict_oldest_of_chain
evict_oldest_of_chain_lem r ks = (
  retain-chain_of r (count_in_chain r ks - max_skip_per_chain) ks
      ∙ ap (λ n. drop (n - max_skip_per_chain) (chain_of r ks)) (count-length r ks),
  retain-outside r _ ks,
)

-- `pop_front` until 10 000 are left.
pub pop_excess_lem :
    (ks : List SkippedKey) → pop_excess ks ≡ drop (length ks - max_skipped_total) ks
unfolding pop_excess
pop_excess_lem [] = sym (drop-nil (0 - max_skipped_total))
pop_excess_lem (k ∷ ks) = elim (dec_lt max_skipped_total (suc (length ks))) [
  | yes over ↦
      let e : suc (length ks) - max_skipped_total ≡ suc (length ks - max_skipped_total) =
        omega arith in
      rw (lt→ltb max_skipped_total (suc (length ks)) over, e) (pop_excess_lem ks)
  | no under ↦
      let e : suc (length ks) - max_skipped_total ≡ 0 = omega arith in
      rw (le→not_ltb max_skipped_total (suc (length ks)) (omega arith), e)
]

retain-sublist : (r : PublicKey) (n : ℕ) (ks : List SkippedKey) → Sublist (retain r n ks) ks
unfolding retain
retain-sublist r n [] = nil-sublist []
retain-sublist r n (k ∷ ks) = elim (Bool-cases (ltb 0 n && in_chain r k)) [
  | inl gone ↦ rw gone (Sublist.cons k (retain-sublist r (n - 1) ks))
  | inr stays ↦ rw stays (Sublist.cons-cons k (retain-sublist r (n - 0) ks))
]

-- What `extend` adds and keeps: the new keys go behind the old ones; then of the chain the newest
-- 1 000 stay, and of the other chains every key, in the old order; then of all the newest 10 000.
pub extend_lem :
    (r : PublicKey) (keys : List (ℕ × Key)) (ks : List SkippedKey)
    → let all = ks ++ map (with_ratchet r) keys in
      (kept : List SkippedKey) × Sublist kept all
      × (chain_of r kept ≡ drop (length (chain_of r all) - max_skip_per_chain) (chain_of r all))
      × (outside r kept ≡ outside r all)
      × (extend r keys ks ≡ drop (length kept - max_skipped_total) kept)
unfolding extend
extend_lem r keys ks =
    let all = ks ++ map (with_ratchet r) keys in
    let (chain, others) = evict_oldest_of_chain_lem r all in
    (
      evict_oldest_of_chain r all,
      unfold evict_oldest_of_chain in
          retain-sublist r (count_in_chain r all - max_skip_per_chain) all,
      chain,
      others,
      pop_excess_lem (evict_oldest_of_chain r all),
    )
