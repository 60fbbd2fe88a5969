-- ===== src/Fuzz/Reheadered/Passing.antt =====
-- The whole target: it passes, or a frame that the peer made has opened.
use quietwire.Base.{
  ℕ, ◌+◌, ◌≤◌, ◌≡◌, ◌≢◌, refl, sym, ap, subst, ◌⊎◌, inl, inr, none, some, arith, length,
}
use quietwire.Base.{Result, ok, err, panic, ◌>>=◌}
use quietwire.Bytes as Base
use quietwire.Crypto.{Primitives, HasLengths, OpensSealed, DhCommutes}
use quietwire.Crypto.Secret.{SecretKey, Draw, fill, random, build_in_place, from_slice}
use quietwire.Crypto.Aead
use quietwire.Crypto.X25519
use quietwire.Crypto.X25519.{PrivateKey, PublicKey, public_key}
use quietwire.Ratchet.{Key, Error, SealedFrame, max_skip_per_chain}
use quietwire.Ratchet.Chain.{kdf_root}
use quietwire.Ratchet.Session.{Session, initiator, initiator_with, responder, encrypt, decrypt}
use quietwire.Ratchet.Session.Steps.{kdf_root-length}
use quietwire.Ratchet.Session.Invariant.{IsValid}
use quietwire.Ratchet.Session.Exchange.{Turn}
use quietwire.Ratchet.Session.Exchange.Cross.{cross}
use quietwire.Ratchet.Session.Start.{
  started, started-IsValid, initiator_with-cases, initiator_with-Turn, responder-IsValid,
}
use quietwire.Ratchet.Session.Mirrors.{mark, Mirrors}
use quietwire.Ratchet.Session.Crossing.{none_taken, Crossed-Mirrors}
use quietwire.Fuzz.{expect, start, shared_key}
use quietwire.Fuzz.Dialogue.Invariant.{decrypt-Opened}
use quietwire.Fuzz.Reheadered.{plaintext, Input, Draws, peer_frame, challenge, ratchet_header}
use quietwire.Fuzz.Reheadered.Genuine.{Sends, send_next, peer_passes}
use quietwire.Fuzz.Reheadered.Resolve.{IsSized, IsBody, peer_frame_total}

abbrev key : SecretKey
key = record { expose_secret = shared_key }

-- In a run of the target from the sessions `a` and `b`, a frame that the peer made from the genuine
-- one, and that is another, has opened.
pub record Forged (P : Primitives) (draws : Draws) (input : Input) (a b : Session) : Type 0 where
  pub opening : SealedFrame
  pub own : SealedFrame
  pub peer : SealedFrame
  pub a1 : Session
  pub a2 : Session
  pub b1 : Session
  pub sends : encrypt P draws.nonces.0 plaintext a ≡ (ok opening, a1)
  pub opens : decrypt P opening draws.ratchets.0 b ≡ (ok plaintext, b1)
  pub again : encrypt P draws.nonces.1 plaintext a1 ≡ (ok own, a2)
  pub made : peer_frame input own ≡ ok peer
  pub other : peer ≢ own
  pub opened : Base.Bytes
  pub forged : (decrypt P peer draws.ratchets.1 b1).0 ≡ ok opened

module _ (P : Primitives) where
  abbrev both : PrivateKey → Session → Result Error (Session × Session)
  both prekey a = ok (a, responder P key prekey)

  both-ok :
      (prekey : PrivateKey) (r : Result Error Session) (a b : Session)
      → (expect r >>= both prekey) ≡ ok (a, b)
      → (r ≡ ok a) × (b ≡ responder P key prekey)
  both-ok prekey (ok x) a b e = (cc, cc)
  both-ok prekey (err x) a b e = absurd (cc)
  both-ok prekey panic a b e = absurd (cc)

  -- The two sessions of a conversation that has started.
  start-ok :
      (first second : Draw) (a b : Session)
      → start P first second ≡ ok (a, b)
      → (prekey own : PrivateKey) × (initiator_with P key (public_key P prekey) own ≡ ok a)
        × (b ≡ responder P key prekey)
  unfolding start X25519.generate random build_in_place fill from_slice initiator
  start-ok none second a b e = cc
  start-ok (some x) none a b e = cc
  start-ok (some x) (some y) a b e =
      let prekey : PrivateKey = record { secret = record { expose_secret = x } } in
      let own : PrivateKey = record { secret = record { expose_secret = y } } in
      let (run, same) = both-ok prekey (initiator_with P key (public_key P prekey) own) a b e in
      (prekey, own, run, same)

  -- At the start the initiator has its first turn and neither party holds a key.
  record Started (a b : Session) : Type 0 where
    start : Key
    turn : Turn P start 0 a b
    alice_valid : IsValid a
    bob_valid : IsValid b
    none_sent : a.previous_sending_len ≡ 0
    none_kept : length b.skipped ≡ 0

  start-Started :
      HasLengths P
      → DhCommutes P
      → (prekey own : PrivateKey) (a : Session)
      → initiator_with P key (public_key P prekey) own ≡ ok a
      → Started a (responder P key prekey)
  unfolding responder
  start-Started L D prekey own a e = elim (initiator_with-cases P L key (public_key P prekey) own) [
    | inl refused ↦ absurd (cc)
    | inr (root, chain, derived, root_len, len, run) ↦
        let same : started P (public_key P prekey) own root chain ≡ a = cc in
        let (start, turn) = initiator_with-Turn P L D key prekey own a e in
        record {
          start = start;
          turn = turn;
          alice_valid =
              subst IsValid same
                (started-IsValid P (public_key P prekey) own root chain root_len len);
          bob_valid = responder-IsValid P key prekey refl;
          none_sent = ap (λ (s : Session). s.previous_sending_len) (sym same);
          none_kept = refl;
        }
  ]

  module _ (L : HasLengths P) (O : OpensSealed P) where
    -- After the opening frame the responder mirrors the chain, and the sender is at its next number.
    record Live (bytes ratchet_bytes : Base.Bytes) (a b : Session) : Type 0 where
      start : Key
      base : ℕ
      frame : Base.Bytes
      a' : Session
      b' : Session
      sends :
          encrypt P (some bytes) plaintext a
          ≡ (ok (record { nonce = record { as_bytes = bytes }; frame = frame }), a')
      opens :
          decrypt P
            (record { nonce = record { as_bytes = bytes }; frame = frame })
            (some ratchet_bytes)
            b
          ≡ (ok plaintext, b')
      sender : Sends P start (public_key P a.own_ratchet) 1 a'
      valid : IsValid b'
      few : base + 3 ≤ max_skip_per_chain
      mirrors : Mirrors P start (public_key P a.own_ratchet) base 1 (mark 0 none_taken) b'

    opening-Live :
        (bytes ratchet_bytes : Base.Bytes) (a b : Session) (root : SecretKey) (sending_key : Key)
        → Started a b
        → kdf_root P a.root_key
            (record { secret = record { expose_secret = ratchet_bytes } })
            (public_key P a.own_ratchet)
          ≡ ok (root, sending_key)
        → Live bytes ratchet_bytes a b
    unfolding decrypt X25519.generate random build_in_place fill
    opening-Live bytes ratchet_bytes a b root sending_key s second =
        let (frame, a', sent, framed, f, until, sender) =
          send_next P L s.start (public_key P a.own_ratchet) O bytes 0 a (omega arith)
            (record { valid = s.alice_valid; sends = s.turn.sends; owns = refl }) in
        let sealed : SealedFrame = record { nonce = record { as_bytes = bytes }; frame = frame } in
        let own : PrivateKey = record { secret = record { expose_secret = ratchet_bytes } } in
        let len =
          kdf_root-length P L a.root_key own (public_key P a.own_ratchet) root sending_key second in
        let c =
          cross P L s.start 0 a b own sealed plaintext root sending_key (omega arith) s.turn f until
            len.1 second in
        record {
          start = s.start;
          base = length b.skipped + a.previous_sending_len;
          frame = frame;
          a' = a';
          b' = c.after;
          sends = sent;
          opens = c.opens;
          sender = sender;
          valid = elim (decrypt-Opened P L sealed (some ratchet_bytes) b framed s.bob_valid) [
            | inl (e, refused) ↦ let opened = c.opens in absurd (cc)
            | inr (p, after, opened, o) ↦
                let opens = c.opens in let same : after ≡ c.after = cc in subst IsValid same o.valid
          ];
          few = omega (arith, s.none_sent, s.none_kept);
          mirrors =
              Crossed-Mirrors P L s.start 0 a b own sealed plaintext root sending_key 3
                (omega (arith, s.none_sent, s.none_kept)) (omega arith) s.turn c;
        }

    -- The fuzz target of the header, once its sessions have started, passes on every input, or it has
    -- shown a frame other than the genuine one that opened. So whatever the peer sends, a frame that
    -- does not open changes nothing: the genuine frame opens exactly once, and the frame after it
    -- opens too. The generator draws nonces, the second of 24 bytes, and a first ratchet key that is not refused;
    -- raw bytes of the input fill their arrays. The libraries' lengths, the cipher's round trip and
    -- the commutation of Diffie-Hellman are assumed.
    pub ratchet_header_lem :
        DhCommutes P
        → (first second : Draw) (opening own next ratchet_bytes : Base.Bytes)
          (again third fourth : Draw) (input : Input) (a b : Session) (root : SecretKey)
          (sending_key : Key)
        → start P first second ≡ ok (a, b)
        → length own ≡ Aead.nonce_len
        → kdf_root P a.root_key
            (record { secret = record { expose_secret = ratchet_bytes } })
            (public_key P a.own_ratchet)
          ≡ ok (root, sending_key)
        → IsSized Aead.nonce_len input.nonce
        → IsBody input.frame
        → let draws : Draws = record {
          sessions = (first, second);
          nonces = (some opening, some own, some next);
          ratchets = (some ratchet_bytes, again, third, fourth);
        } in
          (ratchet_header P draws input ≡ ok tt)
          ⊎ ((ratchet_header P draws input ≡ panic) × Forged P draws input a b)
    unfolding ratchet_header challenge
    ratchet_header_lem D first second opening own next ratchet_bytes again third fourth input a b
          root sending_key e drawn step sized body =
        let (prekey, alice_key, run, same) = start-ok first second a b e in
        let s = subst (Started a) (sym same) (start-Started L D prekey alice_key a run) in
        let l = opening-Live opening ratchet_bytes a b root sending_key s step in
        let ratchet = public_key P a.own_ratchet in
        let (frame, a'', sent, framed, f, _, sender) =
          send_next P L l.start ratchet O own 1 l.a' (omega arith) l.sender in
        let genuine : SealedFrame = record { nonce = record { as_bytes = own }; frame = frame } in
        let (peer, resolved, size) = peer_frame_total input genuine drawn framed sized body in
        let result =
          peer_passes P L l.start ratchet O l.base l.few next third fourth genuine f a'' sender peer
            again 1 (mark 0 none_taken) l.b' size l.valid (omega arith) refl refl l.mirrors in
        rw (ratchet_header, e, l.sends, l.opens, sent, challenge, resolved)
          (elim result [
            | inl passes ↦ inl passes
            | inr (fails, other, (opened, forged)) ↦ inr (
              fails,
              record {
                opening = record { nonce = record { as_bytes = opening }; frame = l.frame };
                own = genuine;
                peer = peer;
                a1 = l.a';
                a2 = a'';
                b1 = l.b';
                sends = l.sends;
                opens = l.opens;
                again = sent;
                made = resolved;
                other = other;
                opened = opened;
                forged = forged;
              },
            )
          ])
