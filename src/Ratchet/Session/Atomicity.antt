-- ===== src/Ratchet/Session/Atomicity.antt =====
-- `Session::decrypt` changes the session on success only, and keeps it valid.
use quietwire.Base.{
  ℕ, suc, zero, ◌+◌, ◌-◌, ◌≤◌, ◌≡◌, ◌≢◌, refl, subst, ◌⊎◌, inl, inr, Option, none, some, List, map,
  arith, length, All,
}
use quietwire.Base.{Result, ok, panic}
use quietwire.Bytes.{Bytes}
use quietwire.Crypto
use quietwire.Crypto.{Primitives, HasLengths}
use quietwire.Crypto.X25519.{PrivateKey, PublicKey}
use quietwire.Ratchet.{
  Key, Error, SealedFrame, frame_len, plaintext_len, chain_limit, max_skipped_total,
  max_skip_per_chain,
}
use quietwire.Ratchet.Header.{parse}
use quietwire.Ratchet.Chain.{Chain, Cursor, at, kdf_chain}
use quietwire.Ratchet.Chain.Schedule.{advance, message_key_at, keys_from}
use quietwire.Ratchet.Chain.Keys.{length-advance, length-message_key_at}
use quietwire.Ratchet.Skipped.{SkippedKey, with_ratchet, extend, count_in_chain}
use quietwire.Ratchet.Skipped.Bounds.{
  length-extend-le, count-extend-le, extend-All, remove-All, length-remove-le, count-remove-le,
}
use quietwire.Ratchet.Session.{Session, decrypt_with, extend_previous, next_or_zero}
use quietwire.Ratchet.Session.Invariant.{IsChain, IsChain?, IsSkipped, IsValid}
use quietwire.Ratchet.Session.Outcomes.{Refused, InChain}
use quietwire.Ratchet.Session.StepCalls.{FromPrevious}
use quietwire.Ratchet.Session.SkippedOutcome.{FromSkipped}
use quietwire.Ratchet.Session.StepOutcome.{RatchetStep}
use quietwire.Ratchet.Session.Decrypt.{
  refused, from_skipped, in_chain, stepped, decrypt_with-Outcome,
}

-- What `decrypt_with` promises of its result: on failure the session is the old one; on success
-- the plaintext has its length and the session is valid again. It does not panic.
abbrev pub Atomic : Session → Result Error Bytes × Session → Type 0
Atomic s r =
    Refused s r
    ⊎ ((plaintext : Bytes) × (r.0 ≡ ok plaintext)
        × (length plaintext ≡ plaintext_len)
        × IsValid r.1)

module _ (P : Primitives) (L : HasLengths P) where
  keys_from-IsSkipped :
      (r : PublicKey) (k : Key) (n m : ℕ)
      → n + m ≤ chain_limit
      → All IsSkipped (map (with_ratchet r) (keys_from P k n m))
  unfolding keys_from message_key_at advance
  keys_from-IsSkipped r k n zero h = tt
  keys_from-IsSkipped r k n (suc m) h = (
    record { key_len = length-message_key_at P L k 0; within = omega arith },
    keys_from-IsSkipped r (kdf_chain P k).1 (suc n) m (omega arith),
  )

  -- The skipped keys of a valid session after `extend` with keys of a schedule.
  pub record Skips (ks : List SkippedKey) : Type 0 where
    pub skips : All IsSkipped ks
    pub total : length ks ≤ max_skipped_total
    pub per_chain : (r : PublicKey) → count_in_chain r ks ≤ max_skip_per_chain

  extend-Skips :
      (r : PublicKey) (k : Key) (n m : ℕ) (ks : List SkippedKey)
      → n + m ≤ chain_limit
      → Skips ks
      → Skips (extend r (keys_from P k n m) ks)
  extend-Skips r k n m ks h v = record {
    skips = extend-All IsSkipped r (keys_from P k n m) ks v.skips (keys_from-IsSkipped r k n m h);
    total = length-extend-le r (keys_from P k n m) ks;
    per_chain = λ c. count-extend-le r c (keys_from P k n m) ks (v.per_chain c);
  }

  extend_previous-Skips :
      (receiving : Option Chain) (until : ℕ) (previous : Option Cursor) (remote : Option PublicKey)
      (ks : List SkippedKey)
      → IsChain? receiving
      → FromPrevious P receiving until previous
      → Skips ks
      → Skips (extend_previous P previous remote ks)
  extend_previous-Skips none until previous remote ks c e v = rw e v
  extend_previous-Skips (some chain) until previous none ks c (h, n, e) v = rw e v
  extend_previous-Skips (some chain) until previous (some r) ks c (h, n, e) v = rw e (
      unfold at in
      extend-Skips r chain.key.expose_secret chain.next (until - chain.next) ks
        (omega (arith, c.within)) v)

  IsValid-Skips : {s : Session} → IsValid s → Skips s.skipped
  IsValid-Skips v = record { skips = v.skips; total = v.total; per_chain = v.per_chain }

  module _ (sealed : SealedFrame) (s : Session) (v : IsValid s)
      (r : Result Error Bytes × Session) where
    FromSkipped-Atomic :
        (index : ℕ) → FromSkipped P (parse sealed.frame) sealed s index r → Atomic s r
    FromSkipped-Atomic index f = rw f.result (
        inr (
          f.plaintext,
          refl,
          f.size,
          record {
            root_len = v.root_len;
            sends = v.sends;
            receives = v.receives;
            previous_within = v.previous_within;
            skips = remove-All IsSkipped s.skipped index v.skips;
            total = omega (arith, length-remove-le s.skipped index);
            per_chain = λ c. omega (arith, count-remove-le c s.skipped index, v.per_chain c);
          },
        ))

    in_chain-Atomic : InChain P (parse sealed.frame) sealed s r → Atomic s r
    in_chain-Atomic f = rw f.result (
        inr (
          f.plaintext,
          refl,
          f.size,
          record {
            root_len = v.root_len;
            sends = v.sends;
            receives = record {
              key_len = length-advance P L key (suc f.ahead) chain_valid.key_len;
              within = omega (arith, f.number, f.within);
            };
            previous_within = v.previous_within;
            skips = kept.skips;
            total = kept.total;
            per_chain = kept.per_chain;
          },
        ))
      where
        key : Key
        key = f.chain.key.expose_secret

        chain_valid : IsChain f.chain
        chain_valid = subst IsChain? f.receiving v.receives

        kept :
            Skips
              (extend (parse sealed.frame).ratchet (keys_from P key f.chain.next f.ahead) s.skipped)
        kept =
            extend-Skips (parse sealed.frame).ratchet key f.chain.next f.ahead s.skipped
              (omega (arith, f.number, f.within)) (IsValid-Skips v)

    next_or_zero-le : (o : Option Chain) → IsChain? o → next_or_zero o ≤ chain_limit
    next_or_zero-le none c = omega arith
    next_or_zero-le (some chain) c = c.within

    stepped-Atomic :
        (next_ratchet : Result Crypto.Error PrivateKey)
        → RatchetStep P (parse sealed.frame) sealed next_ratchet s r
        → Atomic s r
    stepped-Atomic next_ratchet f = rw f.result (
        inr (
          f.plaintext,
          refl,
          f.size,
          record {
            root_len = f.root_len;
            sends = record { key_len = f.sending_len; within = omega arith };
            receives = record {
              key_len = length-advance P L f.receiving_key (suc number) f.receiving_len;
              within = omega (arith, f.within);
            };
            previous_within = next_or_zero-le s.sending v.sends;
            skips = kept.skips;
            total = kept.total;
            per_chain = kept.per_chain;
          },
        ))
      where
        number : ℕ
        number = (parse sealed.frame).message_number

        kept : Skips (
            extend
              (parse sealed.frame).ratchet
              (keys_from P f.receiving_key 0 number)
              (extend_previous P f.previous s.remote_ratchet s.skipped))
        kept =
            extend-Skips (parse sealed.frame).ratchet f.receiving_key 0 number _
              (omega (arith, f.within))
              (extend_previous-Skips s.receiving (parse sealed.frame).previous_chain_len f.previous
                s.remote_ratchet s.skipped v.receives f.from_previous (IsValid-Skips v))

  -- On a valid session and a frame of 452 bytes `decrypt_with` never panics. If it fails it leaves
  -- the session exactly as it was, whatever the error; if it succeeds the plaintext has 396 bytes
  -- and the session is valid again. It assumes the libraries' output lengths, and that the
  -- generator of the next ratchet key does not panic.
  pub decrypt_with-Atomic :
      (sealed : SealedFrame)
      → length sealed.frame ≡ frame_len
      → (next_ratchet : Result Crypto.Error PrivateKey) → next_ratchet ≢ panic
      → (s : Session) → IsValid s
      → Atomic s (decrypt_with P sealed next_ratchet s)
  decrypt_with-Atomic sealed framed next_ratchet drawn s v =
      elim (decrypt_with-Outcome P L sealed framed next_ratchet drawn s v) [
        | refused r ↦ inl r
        | from_skipped index e f ↦ FromSkipped-Atomic sealed s v _ index f
        | in_chain e t f ↦ in_chain-Atomic sealed s v _ f
        | stepped e t f ↦ stepped-Atomic sealed s v _ next_ratchet f
      ]
