-- ===== src/Ratchet/Session/Exchange/Cross.antt =====
-- The receiver's side of a turn: `decrypt` on the first frame of a new chain.
use quietwire.Base.{
  ℕ, suc, ◌+◌, ◌≤◌, ◌≡◌, refl, ◌∙◌, inl, Option, none, some, List, [], ◌∷◌, map, arith, length, All,
  false,
}
use quietwire.Base.{ok}
use quietwire.Bytes.{Bytes}
use quietwire.Crypto.{Primitives, HasLengths}
use quietwire.Crypto.Secret.{SecretKey}
use quietwire.Crypto.X25519.{PrivateKey, PublicKey, public_key}
use quietwire.Ratchet.{Key, SealedFrame, max_skip_per_chain}
use quietwire.Ratchet.Header.{Header, parse}
use quietwire.Ratchet.Chain.{Cursor, kdf_root, start}
use quietwire.Ratchet.Chain.Schedule.{advance, keys_from}
use quietwire.Ratchet.Chain.Keys.{length-advance, keys_from-scheduled}
use quietwire.Ratchet.Skipped.{SkippedKey, same_ratchet, with_ratchet, extend}
use quietwire.Ratchet.Skipped.Bounds.{extend-All}
use quietwire.Ratchet.Skipped.Position.{none_of_All}
use quietwire.Ratchet.Session.{
  Session, is_remote, decrypt_with, decrypt_after_ratchet_step, skip_previous, extend_previous,
  next_or_zero,
}
use quietwire.Ratchet.Session.Steps.{chain_at, start_lem, into_chain_lem}
use quietwire.Ratchet.Session.StepCalls.{first_taken, message_key-new}
use quietwire.Ratchet.Session.Decrypt.{as_step}
use quietwire.Ratchet.Session.Delivery.{Follows, IsFrame, IsScheduled, IsScheduled-keys}
use quietwire.Ratchet.Session.Exchange.{keys_of, Turn, CatchesUp-skip_previous, fresh-position}

module _ (P : Primitives) (L : HasLengths P) where
  -- A ratchet step on a frame of a new chain.
  step_run :
      (start : Key) (n : ℕ) (sealed : SealedFrame) (plaintext : Bytes) (b : Session)
      (own : PrivateKey) (middle root : SecretKey) (sending_key : Key) (ratchet : PublicKey)
      (previous : Option Cursor)
      → length start ≡ 32
      → length sending_key ≡ 32
      → n ≤ max_skip_per_chain
      → IsFrame P start ratchet n plaintext sealed
      → skip_previous P b.receiving (parse sealed.frame).previous_chain_len ≡ ok previous
      → kdf_root P b.root_key b.own_ratchet ratchet ≡ ok (middle, start)
      → kdf_root P middle own ratchet ≡ ok (root, sending_key)
      → decrypt_after_ratchet_step P (parse sealed.frame) sealed (ok own) b ≡ (
        ok plaintext,
        record {
          root_key = root;
          own_ratchet = own;
          remote_ratchet = some ratchet;
          sending = some (chain_at sending_key 0);
          receiving = some (chain_at (advance P start (suc n)) (suc n));
          previous_sending_len = next_or_zero b.sending;
          skipped =
              extend ratchet
                (keys_from P start 0 n)
                (extend_previous P previous b.remote_ratchet b.skipped);
        },
      )
  unfolding decrypt_after_ratchet_step
  step_run start n sealed plaintext b own middle root sending_key ratchet previous hs hk hn frame
        skip first second =
      ground (
        arith,
        skip,
        first,
        second,
        frame.from,
        frame.number,
        frame.opens,
        message_key-new P start n hn,
        start_lem sending_key hk,
        into_chain_lem (first_taken P start n) (length-advance P L start (suc n) hs),
      )

  others-IsScheduled :
      (start : Key) (ratchet : PublicKey) (ks : List SkippedKey)
      → All (λ k. same_ratchet k.ratchet ratchet ≡ false) ks
      → All (IsScheduled P start ratchet) ks
  others-IsScheduled start ratchet [] v = tt
  others-IsScheduled start ratchet (k ∷ ks) v = (inl v.0, others-IsScheduled start ratchet ks v.1)

  pub other_keys :
      (start : Key) (ratchet r : PublicKey) (keys : List (ℕ × Key))
      → same_ratchet r ratchet ≡ false
      → All (IsScheduled P start ratchet) (map (with_ratchet r) keys)
  other_keys start ratchet r [] v = tt
  other_keys start ratchet r (e ∷ keys) v = (inl v, other_keys start ratchet r keys v)

  previous-IsScheduled :
      (start : Key) (ratchet : PublicKey) (previous : Option Cursor) (remote : Option PublicKey)
      (ks : List SkippedKey)
      → is_remote remote ratchet ≡ false
      → All (λ k. same_ratchet k.ratchet ratchet ≡ false) ks
      → All (IsScheduled P start ratchet) (extend_previous P previous remote ks)
  previous-IsScheduled start ratchet none remote ks h v = others-IsScheduled start ratchet ks v
  previous-IsScheduled start ratchet (some c) none ks h v = others-IsScheduled start ratchet ks v
  previous-IsScheduled start ratchet (some c) (some r) ks h v =
      extend-All (IsScheduled P start ratchet) r c.skipped ks
        (others-IsScheduled start ratchet ks v) (other_keys start ratchet r c.skipped h)

  -- The receiver's side of a turn: the frame opens, and the receiver follows the chain.
  pub record Crossed (start : Key) (n : ℕ) (a b : Session) (own : PrivateKey) (sealed : SealedFrame)
      (plaintext : Bytes) (root : SecretKey) (sending_key : Key) : Type 0 where
    pub after : Session
    pub opens : decrypt_with P sealed (ok own) b ≡ (ok plaintext, after)
    pub follows : Follows P start (public_key P a.own_ratchet) (suc n) after
    pub sends : after.sending ≡ some (chain_at (advance P sending_key 0) 0)
    pub owns : after.own_ratchet ≡ own
    pub root_key : after.root_key ≡ root
    pub previous_len : after.previous_sending_len ≡ next_or_zero b.sending
    pub previous : Option Cursor
    pub caught : skip_previous P b.receiving a.previous_sending_len ≡ ok previous
    pub previous_few : length (keys_of P previous) ≤ a.previous_sending_len
    pub keeps :
        after.skipped
        ≡ extend
            (public_key P a.own_ratchet)
            (keys_from P start 0 n)
            (extend_previous P previous b.remote_ratchet b.skipped)

  pub cross :
      (start : Key) (n : ℕ) (a b : Session) (own : PrivateKey) (sealed : SealedFrame)
      (plaintext : Bytes) (root : SecretKey) (sending_key : Key)
      → n ≤ max_skip_per_chain
      → Turn P start n a b
      → IsFrame P start (public_key P a.own_ratchet) n plaintext sealed
      → (parse sealed.frame).previous_chain_len ≡ a.previous_sending_len
      → length sending_key ≡ 32
      → kdf_root P a.root_key own (public_key P a.own_ratchet) ≡ ok (root, sending_key)
      → Crossed start n a b own sealed plaintext root sending_key
  unfolding advance
  cross start n a b own sealed plaintext root sending_key hn t frame until hk second = record {
    after = after;
    opens =
        as_step P sealed (ok own) b
          (none_of_All b.skipped header
            (fresh-position P header b.skipped (rw frame.from t.ready.none_kept)))
          (rw frame.from t.ready.fresh)
        ∙ step_run start n sealed plaintext b own a.root_key root sending_key ratchet previous.0
            t.start_len hk hn frame (rw until previous.1) t.agreed second;
    follows = record {
      start_len = t.start_len;
      remote = refl;
      receiving = refl;
      kept =
          extend-All (IsScheduled P start ratchet) ratchet (keys_from P start 0 n) _
            (previous-IsScheduled start ratchet previous.0 b.remote_ratchet b.skipped t.ready.fresh
              t.ready.none_kept)
            (IsScheduled-keys P start ratchet (keys_from P start 0 n) 0 (0 + n)
              (keys_from-scheduled P start 0 n));
    };
    sends = refl;
    owns = refl;
    root_key = refl;
    previous_len = refl;
    previous = previous.0;
    caught = previous.1;
    previous_few = previous.2;
    keeps = refl;
  }
    where
      header : Header
      header = parse sealed.frame

      ratchet : PublicKey
      ratchet = public_key P a.own_ratchet

      previous :
          (previous : Option Cursor) × (skip_previous P b.receiving a.previous_sending_len
            ≡ ok previous)
          × (length (keys_of P previous) ≤ a.previous_sending_len)
      previous = CatchesUp-skip_previous P b.receiving a.previous_sending_len t.ready.caught_up

      after : Session
      after = record {
        root_key = root;
        own_ratchet = own;
        remote_ratchet = some ratchet;
        sending = some (chain_at sending_key 0);
        receiving = some (chain_at (advance P start (suc n)) (suc n));
        previous_sending_len = next_or_zero b.sending;
        skipped =
            extend ratchet (keys_from P start 0 n)
              (extend_previous P previous.0 b.remote_ratchet b.skipped);
      }
