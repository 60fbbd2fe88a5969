-- ===== src/Ratchet/Session/StepCalls.antt =====
-- How each call that a ratchet step makes before it assigns anything ends.
use quietwire.Base.{
  ℕ, suc, ◌+◌, ◌-◌, ◌≤◌, ◌<◌, ◌≡◌, ◌≢◌, refl, ◌⊎◌, inl, inr, Option, none, some, arith, subst, ◌∙◌,
}
use quietwire.Base.{Result, ok, err, panic}
use quietwire.Crypto
use quietwire.Crypto.{Primitives, HasLengths, authentication, invalid_public_key}
use quietwire.Crypto.X25519.{PrivateKey}
use quietwire.Ratchet.{Key, Error, too_far_ahead, chain_limit, max_skip_per_chain}
use quietwire.Ratchet.Chain.{Chain, Cursor, new, at, message_key}
use quietwire.Ratchet.Chain.Schedule.{
  advance, message_key_at, keys_from, skipped_by, skip_to_lem, skip_to_too_far,
}
use quietwire.Ratchet.Chain.MessageKey.{message_key-cases, message_key_lem}
use quietwire.Ratchet.Session.{skip_previous}
use quietwire.Ratchet.Session.Invariant.{IsChain?}
use native.Mathlib.Decide.{dec_lt}

-- An outcome of the calls that a step makes before it assigns anything.
abbrev pub Fails : {A : Type 0} → Result Error A → Type 0
Fails r = (e : Error) × (r ≡ err e)

pub drawn-cases :
    (r : Result Crypto.Error PrivateKey)
    → r ≢ panic
    → ((e : Crypto.Error) × (r ≡ err e)) ⊎ ((own : PrivateKey) × (r ≡ ok own))
drawn-cases (ok own) h = inr (own, refl)
drawn-cases (err e) h = inl (e, refl)
drawn-cases panic h = absurd (h refl)

module _ (P : Primitives) where
  abbrev pub FromPrevious : Option Chain → ℕ → Option Cursor → Type 0
  FromPrevious none until previous = previous ≡ none
  FromPrevious (some chain) until previous =
      (until ≤ chain_limit)
      × (until - chain.next ≤ max_skip_per_chain)
      × (previous ≡ some (skipped_by P (at chain) (until - chain.next)))

  pub skip_previous-cases :
      (receiving : Option Chain) (until : ℕ)
      → IsChain? receiving
      → Fails (skip_previous P receiving until)
        ⊎ ((previous : Option Cursor) × (skip_previous P receiving until ≡ ok previous)
            × FromPrevious receiving until previous)
  skip_previous-cases none until v = inr (none, refl, refl)
  skip_previous-cases (some chain) until v = elim (dec_lt chain_limit until) [
    | yes far ↦ inl (too_far_ahead, rw (skip_to_too_far P (at chain) until (inl far)))
    | no within ↦ elim (dec_lt max_skip_per_chain (until - chain.next)) [
      | yes far ↦
          inl (too_far_ahead, rw (skip_to_too_far P (at chain) until (inr (unfold at in far))))
      | no near ↦ inr (
        some (skipped_by P (at chain) (until - chain.next)),
        unfold at in rw (skip_to_lem P (at chain) until v.within (omega arith) (omega arith)),
        (omega arith, omega arith, refl),
      )
    ]
  ]

  -- The cursor of a new chain behind its message with the given number.
  abbrev pub first_taken : Key → ℕ → Cursor
  first_taken k number = record {
    key = advance P k (suc number);
    next = suc number;
    skipped = keys_from P k 0 number;
  }

  pub new-message_key-cases :
      (k : Key) (number : ℕ)
      → Fails (message_key P (new k) number)
        ⊎ ((number < chain_limit)
            × (number ≤ max_skip_per_chain)
            × (message_key P (new k) number ≡ ok (message_key_at P k number, first_taken k number)))
  unfolding new
  new-message_key-cases k number = elim (message_key-cases P (new k) number (omega arith)) [
    | inl refused ↦ inl refused
    | inr (m, e, within, near, derived) ↦
        let same : m ≡ number = omega arith in
        let count : 0 + m ≡ number = omega arith in
        inr (
          within,
          omega arith,
          derived ∙ λ i. ok (
            message_key_at P k (same i),
            record {
              key = advance P k (suc (same i));
              next = suc (count i);
              skipped = keys_from P k 0 (same i);
            },
          ),
        )
  ]

  pub message_key-new :
      (k : Key) (number : ℕ)
      → number ≤ max_skip_per_chain
      → message_key P (new k) number ≡ ok (message_key_at P k number, first_taken k number)
  unfolding new
  message_key-new k number h = subst goal sum (message_key_lem P (new k) number (omega arith) h)
    where
      sum : 0 + number ≡ number
      sum = omega arith

      goal : ℕ → Type 0
      goal n =
          message_key P (new k) n
          ≡ ok (
            message_key_at P k number,
            record {
              key = advance P k (suc number);
              next = suc n;
              skipped = keys_from P k 0 number;
            },
          )
