-- ===== src/Ratchet/Chain/Schedule.antt =====
-- The chain as a schedule of keys: from a chain key, the keys that follow it by number. What the
-- cursor derives, skips and refuses is read off the schedule.
use quietwire.Base.{
  ltb, false, ℕ, zero, suc, ◌+◌, ◌-◌, ◌%◌, ◌^◌, ◌≤◌, ◌<◌, ◌≡◌, ◌⊎◌, refl, ap, ◌∙◌, sym, List, [],
  ◌∷◌, ◌++◌, append_assoc, append-nil, arith, lt→ltb, le→not_ltb, length,
}
use quietwire.Base.{ok, err}
use quietwire.Crypto.{Primitives}
use quietwire.Ratchet.{Key, too_far_ahead, chain_limit, max_skip_per_chain}
use quietwire.Ratchet.Chain.{Cursor, kdf_chain, next_message_key, skip_one, skip_loop, skip_to}
use native.Mathlib.Decide.{dec_lt}

module _ (P : Primitives) where
  -- The chain key after `n` steps.
  unfoldable pub advance : Key → ℕ → Key
  advance k zero = k
  advance k (suc n) = advance (kdf_chain P k).1 n

  -- The message key with number `n` of the chain that starts with `k`.
  unfoldable pub message_key_at : Key → ℕ → Key
  message_key_at k n = (kdf_chain P (advance k n)).0

  -- The `m` message keys from number `n` on, where `k` is the chain key at `n`.
  unfoldable pub keys_from : Key → ℕ → ℕ → List (ℕ × Key)
  keys_from k n zero = []
  keys_from k n (suc m) = (n, (kdf_chain P k).0) ∷ keys_from (kdf_chain P k).1 (suc n) m

  pub advance-add : (k : Key) (n m : ℕ) → advance (advance k n) m ≡ advance k (n + m)
  unfolding advance
  advance-add k zero m = let e : m ≡ 0 + m = omega arith in ap (advance k) e
  advance-add k (suc n) m = advance-add (kdf_chain P k).1 n m ∙ ap (advance k) sum
    where
      sum : suc (n + m) ≡ suc n + m
      sum = omega arith

  pub length-keys_from : (k : Key) (n m : ℕ) → length (keys_from k n m) ≡ m
  unfolding keys_from
  length-keys_from k n zero = refl
  length-keys_from k n (suc m) = ap suc (length-keys_from (kdf_chain P k).1 (suc n) m)

  -- The cursor after `m` more steps of which every key was skipped.
  abbrev pub skipped_by : Cursor → ℕ → Cursor
  skipped_by c m = record {
    key = advance c.key m;
    next = c.next + m;
    skipped = c.skipped ++ keys_from c.key c.next m;
  }

  skip_one_lem :
      (c : Cursor)
      → c.next < chain_limit
      → skip_one P c ≡ record {
        key = (kdf_chain P c.key).1;
        next = suc c.next;
        skipped = c.skipped ++ ((c.next, (kdf_chain P c.key).0) ∷ []);
      }
  unfolding skip_one next_message_key
  skip_one_lem c h = λ i. record {
    key = (kdf_chain P c.key).1;
    next = wraps i;
    skipped = c.skipped ++ ((c.next, (kdf_chain P c.key).0) ∷ []);
  }
    where
      wraps : (c.next + 1) % 2 ^ 32 ≡ suc c.next
      wraps = omega arith

  skipped_by-zero : (c : Cursor) → c ≡ skipped_by c 0
  unfolding advance keys_from
  skipped_by-zero c =
      λ i. record { key = c.key; next = plus_zero i; skipped = sym (append-nil c.skipped) i }
    where
      plus_zero : c.next ≡ c.next + 0
      plus_zero = omega arith

  skip_loop-stays :
      (fuel : ℕ) (c : Cursor) (until : ℕ) → until ≤ c.next → skip_loop P fuel c until ≡ c
  unfolding skip_loop
  skip_loop-stays zero c until h = refl
  skip_loop-stays (suc fuel) c until h = rw (le→not_ltb c.next until h, skip_loop) refl

  skip_loop_lem :
      (fuel m : ℕ) (c : Cursor) (until : ℕ)
      → c.next + m ≡ until
      → m ≤ fuel
      → until ≤ chain_limit
      → skip_loop P fuel c until ≡ skipped_by c m
  unfolding skip_loop advance keys_from
  skip_loop_lem fuel zero c until e hf h =
      skip_loop-stays fuel c until (omega arith) ∙ skipped_by-zero c
  skip_loop_lem zero (suc m) c until e hf h = absurd (omega arith)
  skip_loop_lem (suc fuel) (suc m) c until e hf h =
      rw (lt→ltb c.next until (omega arith), skip_loop)
        (ap (λ d. skip_loop P fuel d until) (skip_one_lem c (omega arith))
          ∙ skip_loop_lem fuel m stepped until (omega arith) (omega arith) h
          ∙ regroup)
    where
      stepped : Cursor
      stepped = record {
        key = (kdf_chain P c.key).1;
        next = suc c.next;
        skipped = c.skipped ++ ((c.next, (kdf_chain P c.key).0) ∷ []);
      }

      sum : suc c.next + m ≡ c.next + suc m
      sum = omega arith

      regroup : skipped_by stepped m ≡ skipped_by c (suc m)
      regroup = λ i. record {
        key = advance (kdf_chain P c.key).1 m;
        next = sum i;
        skipped =
            append_assoc c.skipped ((c.next, (kdf_chain P c.key).0) ∷ [])
              (keys_from (kdf_chain P c.key).1 (suc c.next) m) i;
      }

  -- On any fuel of at least the distance to `until`, which is within the limit of a chain, the loop
  -- ends by its own test, after one round for each number from the cursor to `until`.
  pub skip_loop-ends :
      (fuel : ℕ) (c : Cursor) (until : ℕ)
      → until ≤ chain_limit
      → until - c.next ≤ fuel
      → (skip_loop P fuel c until ≡ skipped_by c (until - c.next))
        × (ltb (skip_loop P fuel c until).next until ≡ false)
  skip_loop-ends fuel c until h hf =
      rw (moved, le→not_ltb (c.next + (until - c.next)) until (omega arith)) (refl, refl)
    where
      moved : skip_loop P fuel c until ≡ skipped_by c (until - c.next)
      moved = elim (dec_lt until c.next) [
        | yes past ↦
            let none_left : until - c.next ≡ 0 = omega arith in
            rw none_left (skip_loop-stays fuel c until (omega arith) ∙ skipped_by-zero c)
        | no ahead ↦ skip_loop_lem fuel (until - c.next) c until (omega arith) hf h
      ]

  -- Within the limits `skip_to` moves to `until`, or stays where it is past that.
  pub skip_to_lem :
      (c : Cursor) (until : ℕ)
      → c.next ≤ chain_limit
      → until ≤ chain_limit
      → until - c.next ≤ max_skip_per_chain
      → skip_to P c until ≡ ok (skipped_by c (until - c.next))
  unfolding skip_to
  skip_to_lem c until hc hu hs =
      rw (le→not_ltb chain_limit until hu, le→not_ltb max_skip_per_chain (until - c.next) hs)
        (ap ok (skip_loop-ends (until - c.next) c until hu (omega arith)).0)

  pub skip_to_too_far :
      (c : Cursor) (until : ℕ)
      → (chain_limit < until) ⊎ (max_skip_per_chain < until - c.next)
      → skip_to P c until ≡ err too_far_ahead
  unfolding skip_to
  skip_to_too_far c until h = ground arith
