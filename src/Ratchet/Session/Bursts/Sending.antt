-- ===== src/Ratchet/Session/Bursts/Sending.antt =====
-- What a party sends in a row: the next frames of its chain.
use quietwire.Base.{
  ℕ, suc, ◌+◌, ◌≤◌, ◌≡◌, refl, ap, ◌∙◌, subst, some, List, [], ◌∷◌, map, arith, length, All,
}
use quietwire.Base.{Result, ok}
use quietwire.Bytes.{Bytes}
use quietwire.Crypto.{Primitives, HasLengths, OpensSealed}
use quietwire.Crypto.Aead.{Nonce}
use quietwire.Crypto.X25519.{public_key}
use quietwire.Ratchet.{Key, Error, SealedFrame, frame_len, chain_limit, plaintext_len}
use quietwire.Ratchet.Chain.Schedule.{advance, advance-add}
use quietwire.Ratchet.Session.{Session, pure, continue_with, next_or_zero}
use quietwire.Ratchet.Session.Steps.{chain_at}
use quietwire.Ratchet.Session.Invariant.{IsValid}
use quietwire.Ratchet.Session.Encrypt.{encrypt_with-Sent, encrypt_with-IsValid}
use quietwire.Ratchet.Session.Exchange.{Sent-IsFrame}
use quietwire.Ratchet.Session.Bursts.{AreFrames, encrypt_all}

-- A session after it has sent up to number `n` of its chain: nothing but the chain has changed.
pub record HasSent (a : Session) (n : ℕ) (a' : Session) : Type 0 where
  pub valid : IsValid a'
  pub root_key : a'.root_key ≡ a.root_key
  pub owns : a'.own_ratchet ≡ a.own_ratchet
  pub remote : a'.remote_ratchet ≡ a.remote_ratchet
  pub receiving : a'.receiving ≡ a.receiving
  pub skipped : a'.skipped ≡ a.skipped
  pub length_sent : next_or_zero a'.sending ≡ n

module _ (P : Primitives) (L : HasLengths P) (O : OpensSealed P) where
  advance_one : (start : Key) (n : ℕ) → advance P (advance P start n) 1 ≡ advance P start (suc n)
  advance_one start n =
      let sum : n + 1 ≡ suc n = omega arith in advance-add P start n 1 ∙ ap (advance P start) sum

  -- Encrypting in a row gives the next frames of the chain.
  pub encrypt_all-AreFrames :
      (messages : List (Nonce × Bytes)) (start : Key) (n : ℕ) (a : Session)
      → IsValid a
      → a.sending ≡ some (chain_at (advance P start n) n)
      → n + length messages ≤ chain_limit
      → All (λ (m : Nonce × Bytes). length m.1 ≡ plaintext_len) messages
      → (frames : List SealedFrame) × (a' : Session) × (encrypt_all P messages a ≡ (ok frames, a'))
        × AreFrames P start
            (public_key P a.own_ratchet)
            a.previous_sending_len
            n
            (map (λ (m : Nonce × Bytes). m.1) messages)
            frames
        × All (λ f. length f.frame ≡ frame_len) frames
        × HasSent a (n + length messages) a'
  unfolding encrypt_all
  encrypt_all-AreFrames [] start n a v e le sizes =
      let none_more : n ≡ n + 0 = omega arith in
      (
        [],
        a,
        refl,
        tt,
        tt,
        record {
          valid = v;
          root_key = refl;
          owns = refl;
          remote = refl;
          receiving = refl;
          skipped = refl;
          length_sent = ap next_or_zero e ∙ none_more;
        },
      )
  encrypt_all-AreFrames ((nonce, plaintext) ∷ messages) start n a v e le sizes =
      let chain = chain_at (advance P start n) n in
      let sent = encrypt_with-Sent P L O nonce plaintext a chain v sizes.0 e (omega arith) in
      let valid = encrypt_with-IsValid P L O nonce plaintext a v sizes.0 in
      let after : Session = record a {
        sending = some (chain_at (advance P (advance P start n) 1) (suc n));
      } in
      let r = ap (λ (t : Result Error SealedFrame × Session). t.1) sent.result in
      let sum : suc n + length messages ≡ n + suc (length messages) = omega arith in
      let (frames, a', run, rest, framed, h) =
        encrypt_all-AreFrames messages start (suc n) after (subst IsValid r valid)
          (ap (λ k. some (chain_at k (suc n))) (advance_one start n)) (omega arith) sizes.1 in
      (
        record { nonce = nonce; frame = sent.frame } ∷ frames,
        a',
        rw (encrypt_all, sent.result)
            (ap
              (λ (t : Result Error (List SealedFrame) × Session).
                continue_with t (λ fs. pure (record { nonce = nonce; frame = sent.frame } ∷ fs)))
              run),
        (
          (
            Sent-IsFrame P start n nonce plaintext a _ sent,
            ap (λ h. h.previous_chain_len) sent.header,
          ),
          rest,
        ),
        (sent.framed, framed),
        record {
          valid = h.valid;
          root_key = h.root_key;
          owns = h.owns;
          remote = h.remote;
          receiving = h.receiving;
          skipped = h.skipped;
          length_sent = h.length_sent ∙ sum;
        },
      )
