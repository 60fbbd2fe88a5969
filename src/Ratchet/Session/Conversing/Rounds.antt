-- ===== src/Ratchet/Session/Conversing/Rounds.antt =====
-- One round of a conversation.
use quietwire.Base.{
  ℕ, suc, ◌+◌, ◌*◌, ◌≤◌, ◌≡◌, refl, sym, ap, ◌∙◌, subst, some, List, ◌∷◌, map, arith, length,
  length-map, All, inl, inr, inside,
}
use quietwire.Base.{Result, ok, panic, ◌≢◌, All-get_elem?}
use quietwire.Bytes.{Bytes}
use quietwire.Crypto
use quietwire.Crypto.{Primitives, HasLengths, OpensSealed, DhCommutes}
use quietwire.Crypto.Aead.{Nonce}
use quietwire.Crypto.X25519.{PrivateKey, PublicKey, public_key}
use quietwire.Ratchet.{Key, Error, SealedFrame, frame_len, max_skip_per_chain}
use quietwire.Ratchet.Header.{parse}
use quietwire.Ratchet.Chain.{kdf_root}
use quietwire.Ratchet.Chain.Schedule.{advance}
use quietwire.Ratchet.Skipped.Bounds.{extend-All}
use quietwire.Ratchet.Session.{Session, next_or_zero}
use quietwire.Ratchet.Session.Steps.{chain_at, kdf_root-length}
use quietwire.Ratchet.Session.Invariant.{IsValid}
use quietwire.Ratchet.Session.Exchange.{Turn, kdf_root_comm}
use quietwire.Ratchet.Session.Exchange.Cross.{Crossed, cross}
use quietwire.Ratchet.Session.Delivery.{IsFrame}
use quietwire.Ratchet.Session.Mirrors.{mark}
use quietwire.Ratchet.Session.Crossing.{none_taken, Crossed-Mirrors}
use quietwire.Ratchet.Session.Bursts.{
  AreFrames, AreFrames-cases, after_all, decrypt_all, encrypt_all,
}
use quietwire.Ratchet.Session.Bursts.Sending.{HasSent, encrypt_all-AreFrames}
use quietwire.Ratchet.Session.Atomicity.{decrypt_with-Atomic}
use quietwire.Ratchet.Session.Reachable.{Atomic-IsValid}
use quietwire.Ratchet.Session.Reordering.{arrives}
use quietwire.Ratchet.Session.Keeping.{KnowsChains, with_ratchet-KnowsChains, after_all-Keeps}
use quietwire.Ratchet.Session.Conversing.{
  Round, plaintexts, arrivals, Known, due_in, frames_of, receiver_after, sender_after, IsRound,
  Live,
}
use quietwire.Ratchet.Session.Conversing.Chains.{
  KnowsChains-more, KnowsRemote-more, KnowsRemote-fresh, KnowsChains-fresh, CatchesUp-few,
  extend_previous-KnowsChains,
}
use quietwire.Ratchet.Session.Conversing.Arrivals.{AreFrames-sealed, after_all-Mirrors}

module _ (P : Primitives) (L : HasLengths P) (O : OpensSealed P) (known : List PublicKey) (used : ℕ)
    (start : Key) (a b : Session) (t : Round) (l : Live P known used start a b)
    (r : IsRound P known t a) (fits : used + 2 * length t.messages ≤ max_skip_per_chain) where
  -- The receiver after the arrivals of a round.
  record Received (after : Session) : Type 0 where
    pub valid : IsValid after
    pub root_key : after.root_key ≡ r.root
    pub owns : after.own_ratchet ≡ t.own
    pub remote : after.remote_ratchet ≡ some (public_key P a.own_ratchet)
    pub sends : after.sending ≡ some (chain_at (advance P r.sending_key 0) 0)
    pub previous_len : after.previous_sending_len ≡ next_or_zero b.sending
    pub chains : KnowsChains (Known known) after.skipped
    pub room : length after.skipped ≤ length b.skipped + a.previous_sending_len + length t.messages

  messages_len : length (plaintexts t) ≡ length t.messages
  messages_len = length-map t.messages (λ (m : Nonce × Bytes). m.1)

  at_frame : Session
  at_frame = record a { sending = some (chain_at (advance P start t.first) t.first) }

  at_frame-Turn : Turn P start t.first at_frame b
  unfolding at_frame
  at_frame-Turn = record {
    start_len = l.turn.start_len;
    sends = refl;
    agreed = l.turn.agreed;
    ready = l.turn.ready;
  }

  sending_len : length r.sending_key ≡ 32
  sending_len =
      (kdf_root-length P L a.root_key t.own (public_key P a.own_ratchet) r.root r.sending_key
        r.accepted).1

  crossed :
      (plaintext : Bytes) (sealed : SealedFrame)
      → IsFrame P start (public_key P a.own_ratchet) t.first plaintext sealed
      → (parse sealed.frame).previous_chain_len ≡ a.previous_sending_len
      → Crossed P L start t.first at_frame b t.own sealed plaintext r.root r.sending_key
  unfolding at_frame
  crossed plaintext sealed f until =
      cross P L start t.first at_frame b t.own sealed plaintext r.root r.sending_key
        (omega (arith, r.arrives_first)) at_frame-Turn f until sending_len r.accepted

  Crossed-chains :
      (plaintext : Bytes) (sealed : SealedFrame)
      (c : Crossed P L start t.first at_frame b t.own sealed plaintext r.root r.sending_key)
      → KnowsChains (Known known) c.after.skipped
  unfolding at_frame
  Crossed-chains plaintext sealed c = subst (KnowsChains (Known known)) (sym c.keeps) (
      extend-All (λ k. Known known k.ratchet) (public_key P a.own_ratchet) _ _
        (extend_previous-KnowsChains P known c.previous b.remote_ratchet b.skipped l.receiver_remote
          l.receiver_chains)
        (with_ratchet-KnowsChains (Known known) (public_key P a.own_ratchet) _ l.sender_own))

  Crossed-IsValid :
      (plaintext : Bytes) (sealed : SealedFrame)
      → length sealed.frame ≡ frame_len
      → (c : Crossed P L start t.first at_frame b t.own sealed plaintext r.root r.sending_key)
      → IsValid c.after
  Crossed-IsValid plaintext sealed framed c =
      subst IsValid (ap (λ (x : Result Error Bytes × Session). x.1) c.opens) (
        Atomic-IsValid P L O b _ l.receiver_valid
          (decrypt_with-Atomic P L sealed framed (ok t.own) drawn b l.receiver_valid))
    where
      drawn : ◌≢◌ {A = Result Crypto.Error PrivateKey} (ok t.own) panic
      drawn e = cc

  received :
      (frames : List SealedFrame)
      → AreFrames P start
          (public_key P a.own_ratchet)
          a.previous_sending_len
          0
          (plaintexts t)
          frames
      → All (λ (f : SealedFrame). length f.frame ≡ frame_len) frames
      → Received (after_all P frames (arrivals t) b)
  unfolding after_all at_frame
  received frames v framed =
      let ratchet = public_key P a.own_ratchet in
      let base = length b.skipped + a.previous_sending_len in
      let len = length t.messages in
      elim (AreFrames-cases P start ratchet a.previous_sending_len 0 t.first (plaintexts t) frames
        v) [
          | inl (missing, _) ↦
              let (p, here) =
                inside (plaintexts t) t.first (omega (arith, messages_len, r.arrives_first)) in
              absurd (cc)
          | inr (plaintext, sealed, e, e', f, until) ↦
              let sum : 0 + t.first ≡ t.first = omega arith in
              let f' = subst (λ k. IsFrame P start ratchet k plaintext sealed) sum f in
              let c = crossed plaintext sealed f' until in
              let m =
                Crossed-Mirrors P L start t.first at_frame b t.own sealed plaintext r.root
                  r.sending_key len (omega (arith, l.receiver_room)) r.arrives_first at_frame-Turn
                  c in
              let (next, taken, le, m') =
                after_all-Mirrors P start ratchet a.previous_sending_len L base len
                  (omega (arith, l.receiver_room)) 0 (plaintexts t) frames v
                  (omega (arith, messages_len)) (map (λ i. (i, ok t.own)) t.later) (suc t.first)
                  (mark t.first none_taken) c.after (omega (arith, r.arrives_first)) m in
              let k =
                after_all-Keeps (Known known) P L O ratchet l.sender_own t.own frames t.later
                  c.after
                  (AreFrames-sealed P start ratchet a.previous_sending_len 0 (plaintexts t) frames v
                    framed)
                  (Crossed-IsValid plaintext sealed
                    (All-get_elem? (λ (f : SealedFrame). length f.frame ≡ frame_len) frames t.first
                      framed e')
                    c)
                  (Crossed-chains plaintext sealed c) c.follows.remote in
              rw (after_all, e', c.opens)
                (record {
                  valid = k.valid;
                  root_key = k.root_key ∙ c.root_key;
                  owns = k.owns ∙ c.owns;
                  remote = k.remote ∙ c.follows.remote;
                  sends = k.sending ∙ c.sends;
                  previous_len = k.previous_len ∙ c.previous_len;
                  chains = k.chains;
                  room = omega (arith, m'.room);
                })
        ]

  Received-Live :
      (a' after : Session)
      → HasSent a (length t.messages) a'
      → Received after
      → DhCommutes P
      → Live P (public_key P t.own ∷ known) (used + 2 * length t.messages) r.sending_key after a'
  Received-Live a' after h k D = record {
    turn = record {
      start_len = sending_len;
      sends = k.sends;
      agreed =
          (λ i. kdf_root P (h.root_key i) (h.owns i) (public_key P (k.owns i)))
          ∙ kdf_root_comm P D a.root_key a.own_ratchet t.own
          ∙ r.accepted
          ∙ ap (λ x. ok (x, r.sending_key)) (sym k.root_key);
      ready =
          rw (k.owns, k.previous_len)
            (record {
              fresh =
                  rw h.remote
                    (KnowsRemote-fresh known (public_key P t.own) r.new _ l.sender_remote);
              none_kept =
                  rw h.skipped
                    (KnowsChains-fresh known (public_key P t.own) r.new _ l.sender_chains);
              caught_up = rw h.receiving (
                  CatchesUp-few P a.receiving (next_or_zero b.sending) l.sender_valid.receives
                    (omega (arith, l.sender_room)));
            });
    };
    sender_valid = k.valid;
    receiver_valid = h.valid;
    sender_chains = KnowsChains-more known (public_key P t.own) after.skipped k.chains;
    receiver_chains =
        KnowsChains-more known (public_key P t.own) a'.skipped (rw h.skipped l.sender_chains);
    sender_remote = rw k.remote (
        KnowsRemote-more known (public_key P t.own) (some (public_key P a.own_ratchet))
          l.sender_own);
    receiver_remote =
        rw h.remote (KnowsRemote-more known (public_key P t.own) a.remote_ratchet l.sender_remote);
    sender_own = rw k.owns (λ key v. v.0);
    sender_room = omega (arith, k.room, h.length_sent, l.receiver_room);
    receiver_room = omega (arith, ap length h.skipped, k.previous_len, l.sender_room);
  }

  -- In a round each frame is answered as it is due, and then the receiver has the turn.
  pub round_lem :
      DhCommutes P
      → (decrypt_all P (frames_of (encrypt_all P t.messages a).0) (arrivals t) b ≡ due_in t)
        × Live P
            (public_key P t.own ∷ known)
            (used + 2 * length t.messages)
            r.sending_key
            (receiver_after P t a b)
            (sender_after P t a)
  round_lem D =
      let (frames, a', run, are, framed, h) =
        encrypt_all-AreFrames P L O t.messages start 0 a l.sender_valid l.turn.sends (omega arith)
          r.sizes in
      let sum : 0 + length t.messages ≡ length t.messages = omega arith in
      subst
        (λ (x : Result Error (List SealedFrame) × Session).
          (decrypt_all P (frames_of x.0) (arrivals t) b ≡ due_in t)
          × Live P (public_key P t.own ∷ known) (used + 2 * length t.messages) r.sending_key
              (after_all P (frames_of x.0) (arrivals t) b) x.1)
        (sym run)
        (
          arrives P L start 0 a b (plaintexts t) frames t.first (map (λ i. (i, ok t.own)) t.later)
              t.own r.root r.sending_key l.turn are (omega (arith, messages_len, r.arrives_first))
              (omega (arith, messages_len, l.receiver_room)) r.accepted,
          Received-Live a' (after_all P frames (arrivals t) b) (subst (λ n. HasSent a n a') sum h)
              (received frames are framed) D,
        )
