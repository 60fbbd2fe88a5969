-- ===== src/Ratchet/Chain/Keys.antt =====
-- The keys of the schedule: their numbers and their lengths.
use quietwire.Base.{
  ℕ, zero, suc, ◌+◌, ◌≤◌, ◌<◌, ◌≡◌, refl, ap, ◌∙◌, arith, length, All, length-take, subst,
}
use quietwire.Crypto.{Primitives, HasLengths}
use quietwire.Crypto.Kdf.{hmac_sha512, length-hmac_sha512}
use quietwire.Ratchet.{Key}
use quietwire.Ratchet.Chain.{message_key_input, chain_key_input, kdf_chain}
use quietwire.Ratchet.Chain.Schedule.{advance, message_key_at, keys_from}

module _ (P : Primitives) where
  pub advance-suc : (k : Key) (n : ℕ) → advance P k (suc n) ≡ (kdf_chain P (advance P k n)).1
  unfolding advance
  advance-suc k zero = refl
  advance-suc k (suc n) = advance-suc (kdf_chain P k).1 n

  keys_from-within :
      (k : Key) (n m lo hi : ℕ)
      → lo ≤ n
      → n + m ≤ hi
      → All
          (λ e. (e.1 ≡ message_key_at P k e.0) × (lo ≤ e.0) × (e.0 < hi))
          (keys_from P (advance P k n) n m)
  unfolding keys_from
  keys_from-within k n zero lo hi hl hh = tt
  keys_from-within k n (suc m) lo hi hl hh = (
    (unfold message_key_at in refl, hl, omega arith),
    subst
        (λ k'.
          All (λ e. (e.1 ≡ message_key_at P k e.0) × (lo ≤ e.0) × (e.0 < hi))
            (keys_from P k' (suc n) m))
        (advance-suc k n) (keys_from-within k (suc n) m lo hi (omega arith) (omega arith)),
  )

  pub keys_from-lt : (k : Key) (n m hi : ℕ) → n + m ≤ hi → All (λ e. e.0 < hi) (keys_from P k n m)
  unfolding keys_from
  keys_from-lt k n zero hi h = tt
  keys_from-lt k n (suc m) hi h =
      (omega arith, keys_from-lt (kdf_chain P k).1 (suc n) m hi (omega arith))

  -- The keys that are passed over are the schedule's, under their own numbers.
  pub keys_from-scheduled :
      (k : Key) (n m : ℕ)
      → All
          (λ e. (e.1 ≡ message_key_at P k e.0) × (n ≤ e.0) × (e.0 < n + m))
          (keys_from P (advance P k n) n m)
  keys_from-scheduled k n m = keys_from-within k n m n (n + m) (omega arith) (omega arith)

  module _ (L : HasLengths P) where
    pub length-message_key_at : (k : Key) (n : ℕ) → length (message_key_at P k n) ≡ 32
    unfolding message_key_at kdf_chain
    length-message_key_at k n = omega (
      arith,
      length-take 32 (hmac_sha512 P (advance P k n) message_key_input),
      length-hmac_sha512 P L (advance P k n) message_key_input,
    )

    pub length-advance : (k : Key) (n : ℕ) → length k ≡ 32 → length (advance P k n) ≡ 32
    length-advance k zero h = unfold advance in h
    length-advance k (suc n) h = ap length (advance-suc k n) ∙ stepped
      where
        stepped : length (kdf_chain P (advance P k n)).1 ≡ 32
        stepped =
            unfold kdf_chain in
            omega (
              arith,
              length-take 32 (hmac_sha512 P (advance P k n) chain_key_input),
              length-hmac_sha512 P L (advance P k n) chain_key_input,
            )

    pub keys_from-length : (k : Key) (n m : ℕ) → All (λ e. length e.1 ≡ 32) (keys_from P k n m)
    unfolding keys_from
    keys_from-length k n zero = tt
    keys_from-length k n (suc m) = (
      unfold advance message_key_at in length-message_key_at k 0,
      keys_from-length (kdf_chain P k).1 (suc n) m,
    )
