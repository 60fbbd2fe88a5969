-- ===== src/Ratchet/Chain/MessageKey.antt =====
-- `Cursor::message_key` on every number, read off the schedule of keys.
use quietwire.Base.{
  ℕ, suc, ◌+◌, ◌-◌, ◌%◌, ◌^◌, ◌≤◌, ◌<◌, ◌≡◌, ap, ◌∙◌, sym, [], ◌++◌, arith, true, false, ltb, leb,
  le→not_ltb, lt→ltb, if◌then◌else◌, ◌⊎◌, inl, inr,
}
use quietwire.Base.{Result, ok, err}
use quietwire.Crypto.{Primitives, authentication}
use quietwire.Ratchet.{Key, Error, crypto, too_far_ahead, chain_limit, max_skip_per_chain}
use quietwire.Ratchet.Chain.{Chain, at, Cursor, next_message_key, message_key}
use quietwire.Ratchet.Chain.Schedule.{
  advance, message_key_at, keys_from, skipped_by, skip_to_lem, skip_to_too_far,
}
use quietwire.Ratchet.Chain.Keys.{advance-suc}
use native.Mathlib.Decide.{dec_lt}

module _ (P : Primitives) where
  -- The cursor behind the key with the number that lies `m` ahead.
  abbrev pub taken : Cursor → ℕ → Cursor
  taken c m = record {
    key = advance P c.key (suc m);
    next = suc (c.next + m);
    skipped = c.skipped ++ keys_from P c.key c.next m;
  }

  next_message_key_lem :
      (c : Cursor) (m : ℕ)
      → c.next + m < chain_limit
      → next_message_key P (skipped_by P c m) ≡ (message_key_at P c.key m, taken c m)
  unfolding next_message_key message_key_at
  next_message_key_lem c m h = λ i. (
    message_key_at P c.key m,
    record {
      key = sym (advance-suc P c.key m) i;
      next = wraps i;
      skipped = c.skipped ++ keys_from P c.key c.next m;
    },
  )
    where
      wraps : (c.next + m + 1) % 2 ^ 32 ≡ suc (c.next + m)
      wraps = omega arith

  -- The next key of a chain is its schedule's first.
  pub next_message_key-at :
      (chain : Chain)
      → chain.next < chain_limit
      → next_message_key P (at chain) ≡ (
        message_key_at P chain.key.expose_secret 0,
        record { key = advance P chain.key.expose_secret 1; next = suc chain.next; skipped = [] },
      )
  unfolding next_message_key message_key_at advance at
  next_message_key-at chain h = λ i. (
    message_key_at P chain.key.expose_secret 0,
    record { key = advance P chain.key.expose_secret 1; next = wraps i; skipped = [] },
  )
    where
      wraps : (chain.next + 1) % 2 ^ 32 ≡ suc chain.next
      wraps = omega arith

  -- A number within the limits gives the schedule's key, and keeps every key that it passes over.
  pub message_key_lem :
      (c : Cursor) (m : ℕ)
      → c.next + m < chain_limit
      → m ≤ max_skip_per_chain
      → message_key P c (c.next + m) ≡ ok (message_key_at P c.key m, taken c m)
  unfolding message_key
  message_key_lem c m h hm =
      rw
        (
          not_limit,
          le→not_ltb (c.next + m) c.next (omega arith),
          skip_to_lem P c (c.next + m) (omega arith) (omega arith) (omega arith),
        )
        (ap ok
          (ap (λ k. next_message_key P (skipped_by P c k)) distance ∙ next_message_key_lem c m h))
    where
      not_limit : leb chain_limit (c.next + m) ≡ false
      not_limit = ground arith

      distance : c.next + m - c.next ≡ m
      distance = omega arith

  -- Which numbers are refused, and how.
  pub message_key_limit :
      (c : Cursor) (number : ℕ) → chain_limit ≤ number → message_key P c number ≡ err too_far_ahead
  unfolding message_key
  message_key_limit c number h = ground arith

  pub message_key_past :
      (c : Cursor) (number : ℕ)
      → number < chain_limit
      → number < c.next
      → message_key P c number ≡ err (crypto authentication)
  unfolding message_key
  message_key_past c number h hn = ground arith

  pub message_key_far :
      (c : Cursor) (number : ℕ)
      → max_skip_per_chain < number - c.next
      → message_key P c number ≡ err too_far_ahead
  unfolding message_key
  message_key_far c number h = ground (arith, skip_to_too_far P c number (inr h))

  -- Every answer of `message_key`: a refusal, or a key within the limits.
  pub message_key-cases :
      (c : Cursor) (number : ℕ)
      → c.next ≤ chain_limit
      → ((e : Error) × (message_key P c number ≡ err e))
        ⊎ ((m : ℕ) × (number ≡ c.next + m)
            × (number < chain_limit)
            × (m ≤ max_skip_per_chain)
            × (message_key P c number ≡ ok (message_key_at P c.key m, taken c m)))
  message_key-cases c number h = elim (dec_lt number chain_limit) [
    | no out ↦ inl (too_far_ahead, message_key_limit c number (omega arith))
    | yes fits ↦ elim (dec_lt number c.next) [
      | yes past ↦ inl (crypto authentication, message_key_past c number fits past)
      | no ahead ↦ elim (dec_lt max_skip_per_chain (number - c.next)) [
        | yes far ↦ inl (too_far_ahead, message_key_far c number far)
        | no near ↦
            let e : number ≡ c.next + (number - c.next) = omega arith in
            inr (
              number - c.next,
              e,
              fits,
              omega arith,
              ap (message_key P c) e
                  ∙ message_key_lem c (number - c.next) (omega arith) (omega arith),
            )
      ]
    ]
  ]

  -- The answer to a number, read off the limits and the schedule, with no loop.
  abbrev pub answer : Cursor → ℕ → Result Error (Key × Cursor)
  answer c number =
      if leb chain_limit number
      then err too_far_ahead
      else (if ltb number c.next
          then err (crypto authentication)
          else (if ltb max_skip_per_chain (number - c.next)
              then err too_far_ahead
              else ok (message_key_at P c.key (number - c.next), taken c (number - c.next))))

  -- For a cursor within the chain limit `message_key` gives on every number the answer that the
  -- limits and the schedule of keys fix: a number at the limit or more than 1 000 ahead is too far, a
  -- number behind the cursor is not authentic, and any other gives the schedule's key for it, with the
  -- cursor one past it and the keys that it passed over kept under their numbers.
  pub message_key-answer :
      (c : Cursor) (number : ℕ) → c.next ≤ chain_limit → message_key P c number ≡ answer c number
  message_key-answer c number h = elim (dec_lt number chain_limit) [
    | no out ↦
        let limit : leb chain_limit number ≡ true = ground arith in
        message_key_limit c number (omega arith) ∙ sym (rw limit)
    | yes fits ↦
        let below : leb chain_limit number ≡ false = ground arith in
        elim (dec_lt number c.next) [
          | yes past ↦
              message_key_past c number fits past ∙ sym (rw (below, lt→ltb number c.next past))
          | no ahead ↦
              let behind : ltb number c.next ≡ false = ground arith in
              elim (dec_lt max_skip_per_chain (number - c.next)) [
                | yes far ↦
                    message_key_far c number far
                    ∙ sym (rw (below, behind, lt→ltb max_skip_per_chain (number - c.next) far))
                | no near ↦
                    let sum : number ≡ c.next + (number - c.next) = omega arith in
                    ap (message_key P c) sum
                    ∙ message_key_lem c (number - c.next) (omega arith) (omega arith)
                    ∙ sym (
                        rw (
                          below,
                          behind,
                          le→not_ltb max_skip_per_chain (number - c.next) (omega arith),
                        ))
              ]
        ]
  ]
