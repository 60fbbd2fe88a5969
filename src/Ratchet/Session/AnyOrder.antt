-- ===== src/Ratchet/Session/AnyOrder.antt =====
-- The frames of a chain in any order, with losses and repetitions.
use quietwire.Base.{
  ℕ, suc, ◌+◌, ◌-◌, ◌≤◌, ◌<◌, ◌≡◌, sym, ap, ◌∙◌, subst, ◌⊎◌, inl, inr, Bool, true, false, List, map,
  ◌++◌, arith, length, length-append, length-map, ltb, Bool-cases,
}
use quietwire.Base.{Result, ok, err}
use quietwire.Bytes.{Bytes, beq_refl}
use quietwire.Crypto
use quietwire.Crypto.{Primitives, HasLengths, authentication}
use quietwire.Crypto.X25519.{PrivateKey, PublicKey}
use quietwire.Ratchet.{Key, Error, crypto, SealedFrame, max_skip_per_chain}
use quietwire.Ratchet.Header.{parse}
use quietwire.Ratchet.Chain.Schedule.{advance, keys_from, length-keys_from}
use quietwire.Ratchet.Skipped.{with_ratchet, remove, extend}
use quietwire.Ratchet.Skipped.Bounds.{length-remove-le}
use quietwire.Ratchet.Skipped.Matches.{
  matches, matches-append, position-matches, extend_small, matches-keys_from,
}
use quietwire.Ratchet.Session.{Session, is_remote, decrypt_with}
use quietwire.Ratchet.Session.Steps.{chain_at}
use quietwire.Ratchet.Session.Decrypt.{as_in_chain}
use quietwire.Ratchet.Session.Replay.{decrypt_with_past}
use quietwire.Ratchet.Session.Delivery.{IsFrame, in_chain_run, ahead}
use quietwire.Ratchet.Session.Retains.{Retains-Used}
use native.Mathlib.Decide.{dec_lt}
use quietwire.Ratchet.Session.Mirrors.{mark, pending, Mirrors, KeptAfter, pending-ahead}

module _ (P : Primitives) (start : Key) (ratchet : PublicKey) where
  module _ (L : HasLengths P) (base hi : ℕ) (fits : base + hi ≤ max_skip_per_chain) where
    -- The frame has opened to its plaintext, and its number is taken.
    abbrev pub Delivers : ℕ → (ℕ → Bool) → Bytes → Session → Result Error Bytes × Session → Type 0
    Delivers n taken plaintext s r =
        (next' : ℕ) × (s' : Session) × (r ≡ (ok plaintext, s'))
        × (next' ≤ hi)
        × Mirrors P start ratchet base next' (mark n taken) s'
        × KeptAfter ratchet s.skipped s'.skipped

    module _ (sealed : SealedFrame) (next_ratchet : Result Crypto.Error PrivateKey) (next : ℕ)
        (taken : ℕ → Bool) (s : Session) (plaintext : Bytes)
        (v : Mirrors P start ratchet base next taken s) where
      current :
          (parse sealed.frame).ratchet ≡ ratchet
          → is_remote s.remote_ratchet (parse sealed.frame).ratchet ≡ true
      current from = rw (v.follows.remote, from) (beq_refl ratchet.as_bytes)

      deliver_ahead :
          (m : ℕ)
          → next + m < hi
          → IsFrame P start ratchet (next + m) plaintext sealed
          → Delivers (next + m) taken plaintext s (decrypt_with P sealed next_ratchet s)
      deliver_ahead m lt f =
          let h = parse sealed.frame in
          let none_waits : matches h s.skipped ≡ 0 =
            v.waits h f.from ∙ ap (pending taken next) f.number ∙ none_ahead in
          let e = position-matches s.skipped h none_waits in
          let (s', run, follows) =
            ahead P L start ratchet sealed next_ratchet next m s plaintext (omega arith)
              (omega arith) v.follows f e in
          let run' =
            as_in_chain P sealed next_ratchet s e (current f.from)
            ∙ in_chain_run P L start ratchet sealed next_ratchet next m s plaintext (omega arith)
                (omega arith) v.follows f in
          let after : s'.skipped ≡ extend h.ratchet keys s.skipped =
            ap (λ (r : Result Error Bytes × Session). r.1.skipped) (sym run ∙ run') in
          let size = length-keys_from P (advance P start next) next m in
          let whole = after ∙ extend_small h.ratchet keys s.skipped (omega (arith, v.room)) in
          (
            suc (next + m),
            s',
            run,
            omega arith,
            record {
              follows = follows;
              seen = seen_ahead;
              waits = λ h' e'.
                  ap (matches h') whole
                  ∙ matches-append h' s.skipped (map (with_ratchet h.ratchet) keys)
                  ∙ ap (λ r. matches h' s.skipped + matches h' (map (with_ratchet r) keys))
                      (f.from ∙ sym e')
                  ∙ (λ i. v.waits h' e' i + matches-keys_from P h' (advance P start next) next m i)
                  ∙ pending-ahead taken next m h'.message_number (v.seen h'.message_number);
              room = omega (
                arith,
                v.room,
                size,
                ap length whole,
                length-append s.skipped (map (with_ratchet h.ratchet) keys),
                length-map keys (with_ratchet h.ratchet),
              );
            },
            inr (
              keys,
              subst (λ r. s'.skipped ≡ s.skipped ++ map (with_ratchet r) keys) f.from whole,
            ),
          )
        where
          keys : List (ℕ × Key)
          keys = keys_from P (advance P start next) next m

          none_ahead : pending taken next (next + m) ≡ 0
          none_ahead = let before : ltb (next + m) next ≡ false = ground arith in ground arith

          seen_ahead : (j : ℕ) → mark (next + m) taken j ≡ true → j < suc (next + m)
          seen_ahead j t = elim (Bool-cases (taken j)) [
            | inl old ↦ omega (arith, v.seen j old)
            | inr other ↦ let same : j ≡ next + m = ground arith in omega arith
          ]

      deliver_kept :
          (n : ℕ)
          → n < next
          → next ≤ hi
          → taken n ≡ false
          → IsFrame P start ratchet n plaintext sealed
          → Delivers n taken plaintext s (decrypt_with P sealed next_ratchet s)
      deliver_kept n lt le fresh f =
          let u =
            Retains-Used P start ratchet L sealed next_ratchet next n taken s plaintext
              (record { kept = v.follows.kept; waits = v.waits }) lt fresh f in
          (
            next,
            record s { skipped = remove s.skipped u.index },
            u.opened,
            le,
            record {
              follows = record {
                start_len = v.follows.start_len;
                remote = v.follows.remote;
                receiving = v.follows.receiving;
                kept = u.retains.kept;
              };
              seen = λ j t. seen_kept n j lt t;
              waits = u.retains.waits;
              room = omega (arith, v.room, length-remove-le s.skipped u.index);
            },
            u.after,
          )
        where
          seen_kept : (n j : ℕ) → n < next → mark n taken j ≡ true → j < next
          seen_kept n j lt t = elim (Bool-cases (taken j)) [
            | inl old ↦ v.seen j old
            | inr other ↦ let same : j ≡ n = ground arith in omega arith
          ]

      refuse_taken :
          (n : ℕ)
          → next ≤ hi
          → taken n ≡ true
          → IsFrame P start ratchet n plaintext sealed
          → decrypt_with P sealed next_ratchet s ≡ (err (crypto authentication), s)
      refuse_taken n le again f =
          let h = parse sealed.frame in
          let lt = v.seen n again in
          let number = f.number in
          let none_waits : matches h s.skipped ≡ 0 =
            v.waits h f.from ∙ ap (pending taken next) f.number ∙ ground arith in
          decrypt_with_past P sealed next_ratchet s (record {
            none_kept = position-matches s.skipped h none_waits;
            same_chain = current f.from;
            chain = chain_at (advance P start next) next;
            receiving = v.follows.receiving;
            past = omega arith;
            within = omega arith;
          })

    -- A frame of the chain opens to its plaintext exactly if its number is not taken yet, and then it
    -- is; a number that is taken is refused as not authentic, and the session stays as it is.
    pub receives :
        (sealed : SealedFrame) (next_ratchet : Result Crypto.Error PrivateKey) (next n : ℕ)
        (taken : ℕ → Bool) (s : Session) (plaintext : Bytes)
        → Mirrors P start ratchet base next taken s
        → next ≤ hi
        → n < hi
        → IsFrame P start ratchet n plaintext sealed
        → ((taken n ≡ true)
            × (decrypt_with P sealed next_ratchet s ≡ (err (crypto authentication), s)))
          ⊎ ((taken n ≡ false)
              × Delivers n taken plaintext s (decrypt_with P sealed next_ratchet s))
    receives sealed next_ratchet next n taken s plaintext v le lt f = elim (Bool-cases (taken n)) [
      | inl again ↦
          inl (again, refuse_taken sealed next_ratchet next taken s plaintext v n le again f)
      | inr fresh ↦ elim (dec_lt n next) [
        | yes old ↦
            inr (fresh, deliver_kept sealed next_ratchet next taken s plaintext v n old le fresh f)
        | no new ↦
            let sum : n ≡ next + (n - next) = omega arith in
            inr (
              fresh,
              subst (λ k. Delivers k taken plaintext s (decrypt_with P sealed next_ratchet s))
                  (sym sum)
                  (deliver_ahead sealed next_ratchet next taken s plaintext v (n - next)
                    (omega arith) (subst (λ k. IsFrame P start ratchet k plaintext sealed) sum f)),
            )
      ]
    ]
