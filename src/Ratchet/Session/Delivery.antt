-- ===== src/Ratchet/Session/Delivery.antt =====
-- The frames of one chain, delivered in any order.
use quietwire.Base.{
  ℕ, suc, ◌+◌, ◌-◌, ◌≤◌, ◌<◌, ◌≡◌, ◌≢◌, refl, ap, subst, ◌∙◌, ◌⊎◌, inl, inr, none, some, List, [],
  ◌∷◌, map, arith, length, All, true, false, Option-cases, All-get_elem?,
}
use quietwire.Base.{Result, ok}
use quietwire.Bytes.{Bytes, beq_refl}
use quietwire.Crypto
use quietwire.Crypto.{Primitives, HasLengths}
use quietwire.Crypto.X25519.{PrivateKey, PublicKey}
use quietwire.Ratchet.{Key, SealedFrame, chain_limit, max_skip_per_chain}
use quietwire.Ratchet.Header.{Header, parse}
use quietwire.Ratchet.Chain.{Cursor, at, message_key, kdf_chain}
use quietwire.Ratchet.Chain.Schedule.{advance, message_key_at, keys_from, advance-add}
use quietwire.Ratchet.Chain.Keys.{length-advance, keys_from-scheduled}
use quietwire.Ratchet.Chain.MessageKey.{message_key_lem}
use quietwire.Ratchet.Skipped.{SkippedKey, same_ratchet, position, with_ratchet, remove, extend}
use quietwire.Ratchet.Skipped.Bounds.{extend-All, remove-All}
use quietwire.Ratchet.Skipped.Position.{is_for, position-some}
use quietwire.Ratchet.Session.{
  Session, open_frame, decrypt_with, decrypt_skipped, decrypt_in_receiving_chain,
}
use quietwire.Ratchet.Session.Steps.{chain_at, into_chain_lem}
use quietwire.Ratchet.Session.Decrypt.{as_skipped, as_in_chain}

module _ (P : Primitives) where
  -- A kept key of the chain is the chain's key for its number.
  abbrev pub IsScheduled : Key → PublicKey → SkippedKey → Type 0
  IsScheduled start ratchet k =
      (same_ratchet k.ratchet ratchet ≡ false) ⊎ (k.key ≡ message_key_at P start k.number)

  -- The session receives the chain of `ratchet` that starts with `start`, and has come to `next`.
  pub record Follows (start : Key) (ratchet : PublicKey) (next : ℕ) (s : Session) : Type 0 where
    pub start_len : length start ≡ 32
    pub remote : s.remote_ratchet ≡ some ratchet
    pub receiving : s.receiving ≡ some (chain_at (advance P start next) next)
    pub kept : All (IsScheduled start ratchet) s.skipped

  -- The chain's frame number `n`, that carries `plaintext`.
  pub record IsFrame (start : Key) (ratchet : PublicKey) (n : ℕ) (plaintext : Bytes)
      (sealed : SealedFrame) : Type 0 where
    pub from : (parse sealed.frame).ratchet ≡ ratchet
    pub number : (parse sealed.frame).message_number ≡ n
    pub opens : open_frame P (message_key_at P start n) sealed ≡ ok plaintext

  pub IsScheduled-keys :
      (start : Key) (ratchet : PublicKey) (keys : List (ℕ × Key)) (lo hi : ℕ)
      → All (λ e. (e.1 ≡ message_key_at P start e.0) × (lo ≤ e.0) × (e.0 < hi)) keys
      → All (IsScheduled start ratchet) (map (with_ratchet ratchet) keys)
  IsScheduled-keys start ratchet [] lo hi v = tt
  IsScheduled-keys start ratchet ((n, key) ∷ keys) lo hi v =
      (inr v.0.0, IsScheduled-keys start ratchet keys lo hi v.1)

  -- The cursor behind the frame with number `n`, from a session that has come to `next`.
  abbrev behind : Key → ℕ → ℕ → ℕ → Cursor
  behind start next m n = record {
    key = advance P start (suc n);
    next = suc n;
    skipped = keys_from P (advance P start next) next m;
  }

  message_key_ahead :
      (start : Key) (next m : ℕ)
      → next + m < chain_limit
      → m ≤ max_skip_per_chain
      → message_key P (at (chain_at (advance P start next) next)) (next + m)
        ≡ ok (message_key_at P start (next + m), behind start next m (next + m))
  message_key_ahead start next m h hm =
      unfold at in
      (message_key_lem P (record { key = advance P start next; next = next; skipped = [] }) m h hm
        ∙ λ i. ok (
          same_key i,
          record {
            key = same_chain i;
            next = suc (next + m);
            skipped = keys_from P (advance P start next) next m;
          },
        ))
    where
      same_key : message_key_at P (advance P start next) m ≡ message_key_at P start (next + m)
      same_key = unfold message_key_at in ap (λ k. (kdf_chain P k).0) (advance-add P start next m)

      sum : next + suc m ≡ suc (next + m)
      sum = omega arith

      same_chain : advance P (advance P start next) (suc m) ≡ advance P start (suc (next + m))
      same_chain = advance-add P start next (suc m) ∙ ap (advance P start) sum

  module _ (L : HasLengths P) (start : Key) (ratchet : PublicKey) (sealed : SealedFrame)
      (next_ratchet : Result Crypto.Error PrivateKey) where
    pub in_chain_run :
        (next m : ℕ) (s : Session) (plaintext : Bytes)
        → next + m < chain_limit
        → m ≤ max_skip_per_chain
        → Follows start ratchet next s
        → IsFrame start ratchet (next + m) plaintext sealed
        → decrypt_in_receiving_chain P (parse sealed.frame) sealed s ≡ (
          ok plaintext,
          record s {
            skipped =
                extend
                  (parse sealed.frame).ratchet
                  (keys_from P (advance P start next) next m)
                  s.skipped;
            receiving = some (chain_at (advance P start (suc (next + m))) (suc (next + m)));
          },
        )
    unfolding decrypt_in_receiving_chain
    in_chain_run next m s plaintext h hm f frame = ground (
      arith,
      f.receiving,
      frame.number,
      frame.opens,
      message_key_ahead start next m h hm,
      into_chain_lem (behind start next m (next + m))
          (length-advance P L start (suc (next + m)) f.start_len),
    )

    -- A frame at or past `next` is read in the chain.
    pub ahead :
        (next m : ℕ) (s : Session) (plaintext : Bytes)
        → next + m < chain_limit
        → m ≤ max_skip_per_chain
        → Follows start ratchet next s
        → IsFrame start ratchet (next + m) plaintext sealed
        → position s.skipped (parse sealed.frame) ≡ none
        → (s' : Session) × (decrypt_with P sealed next_ratchet s ≡ (ok plaintext, s'))
          × Follows start ratchet (suc (next + m)) s'
    ahead next m s plaintext h hm f frame e = (
      after,
      as_in_chain P sealed next_ratchet s e (rw (f.remote, frame.from) (beq_refl ratchet.as_bytes))
          ∙ in_chain_run next m s plaintext h hm f frame,
      record {
        start_len = f.start_len;
        remote = f.remote;
        receiving = refl;
        kept = extend-All (IsScheduled start ratchet) header.ratchet keys s.skipped f.kept (
            rw frame.from (
              IsScheduled-keys start ratchet keys next (next + m)
                (keys_from-scheduled P start next m)));
      },
    )
      where
        header : Header
        header = parse sealed.frame

        keys : List (ℕ × Key)
        keys = keys_from P (advance P start next) next m

        after : Session
        after = record s {
          skipped = extend header.ratchet keys s.skipped;
          receiving = some (chain_at (advance P start (suc (next + m))) (suc (next + m)));
        }

    kept_is :
        (n : ℕ) (plaintext : Bytes) (k : SkippedKey)
        → IsFrame start ratchet n plaintext sealed
        → is_for (parse sealed.frame) k ≡ true
        → IsScheduled start ratchet k
        → k.key ≡ message_key_at P start n
    kept_is n plaintext k frame hit (inl other) =
        let same : same_ratchet k.ratchet (parse sealed.frame).ratchet ≡ true = ground arith in
        let here : same_ratchet k.ratchet ratchet ≡ true =
          subst (λ r. same_ratchet k.ratchet r ≡ true) frame.from same in
        absurd (cc)
    kept_is n plaintext k frame hit (inr scheduled) =
        let number : k.number ≡ (parse sealed.frame).message_number = ground arith in
        scheduled ∙ ap (message_key_at P start) (number ∙ frame.number)

    pub kept_run :
        (n index : ℕ) (s : Session) (plaintext : Bytes)
        → All (IsScheduled start ratchet) s.skipped
        → IsFrame start ratchet n plaintext sealed
        → position s.skipped (parse sealed.frame) ≡ some index
        → decrypt_skipped P index sealed s
          ≡ (ok plaintext, record s { skipped = remove s.skipped index })
    unfolding decrypt_skipped
    kept_run n index s plaintext kept frame e =
        let (k, found, hit, key) = position-some s.skipped (parse sealed.frame) index e in
        let same : k.key ≡ message_key_at P start n =
          kept_is n plaintext k frame hit
            (All-get_elem? (IsScheduled start ratchet) s.skipped index kept found) in
        ground (arith, frame.opens, same, key)

    -- A frame whose key was kept is read with that key.
    pub kept_key :
        (next n index : ℕ) (s : Session) (plaintext : Bytes)
        → Follows start ratchet next s
        → IsFrame start ratchet n plaintext sealed
        → position s.skipped (parse sealed.frame) ≡ some index
        → (s' : Session) × (decrypt_with P sealed next_ratchet s ≡ (ok plaintext, s'))
          × Follows start ratchet next s'
    kept_key next n index s plaintext f frame e = (
      record s { skipped = remove s.skipped index },
      as_skipped P sealed next_ratchet s index e ∙ kept_run n index s plaintext f.kept frame e,
      record {
        start_len = f.start_len;
        remote = f.remote;
        receiving = f.receiving;
        kept = remove-All (IsScheduled start ratchet) s.skipped index f.kept;
      },
    )

    -- A session that follows a chain opens any frame of it whose key it kept, and any frame from the
    -- next number on that skips at most 1 000 keys and stays below the chain limit. The plaintext is
    -- the one that was sealed, and the session still follows the chain. The libraries' output lengths
    -- are assumed.
    pub decrypt_with_delivers :
        (next n : ℕ) (s : Session) (plaintext : Bytes)
        → Follows start ratchet next s
        → IsFrame start ratchet n plaintext sealed
        → (position s.skipped (parse sealed.frame) ≢ none)
          ⊎ ((next ≤ n) × (n ≤ next + max_skip_per_chain) × (n < chain_limit))
        → (next' : ℕ) × (s' : Session) × (decrypt_with P sealed next_ratchet s ≡ (ok plaintext, s'))
          × Follows start ratchet next' s'
    decrypt_with_delivers next n s plaintext f frame h =
        elim (Option-cases (position s.skipped (parse sealed.frame))) [
          | inr (index, e) ↦
              let (s', run, follows) = kept_key next n index s plaintext f frame e in
              (next, s', run, follows)
          | inl e ↦ elim h [
            | inl kept ↦ absurd (kept e)
            | inr (le, near, within) ↦
                let sum : n ≡ next + (n - next) = omega arith in
                let (s', run, follows) =
                  ahead next (n - next) s plaintext (omega arith) (omega arith) f
                    (subst (λ k. IsFrame start ratchet k plaintext sealed) sum frame) e in
                (suc (next + (n - next)), s', run, follows)
          ]
        ]
