-- ===== src/Fuzz/Reheadered.antt =====
-- tools/fuzz/fuzz_targets/ratchet_header.rs: the header of a frame a peer sends, on a live session. A
-- failed assertion is a panic; each call is given what the generator draws in it.
pub mod Genuine
pub mod Resolve
pub mod Passing
mod Tests
use quietwire.Base.{
  ℕ, ◌+◌, Bool, true, false, not, ◌&&◌, Option, none, some, List, ◌++◌, take, drop, replicate,
  reverse, if◌then◌else◌,
}
use quietwire.Base.{Result, ok, err, panic, ◌>>=◌}
use quietwire.Bytes.{beq, to_le_bytes}
use quietwire.Bytes as Base
use quietwire.Crypto
use quietwire.Crypto.{Primitives}
use quietwire.Crypto.Secret.{Draw}
use quietwire.Crypto.X25519.{public_key_len}
use quietwire.Ratchet.{Error, SealedFrame, plaintext_len, header_len}
use quietwire.Ratchet.Session.{Session, encrypt, decrypt}
use quietwire.Fuzz.{Edit, edited, expect, start}

-- `PLAINTEXT`.
abbrev pub plaintext : Base.Bytes
plaintext = replicate plaintext_len 0x11

abbrev pub chain_len_at : ℕ
chain_len_at = public_key_len

abbrev pub message_number_at : ℕ
message_number_at = public_key_len + 4

pub data Bytes : Type 0 where
  genuine : List Edit → Bytes
  raw : Base.Bytes → Bytes

-- `Bytes::resolve`.
unfoldable pub resolve_bytes : Bytes → Base.Bytes → Result Crypto.Error Base.Bytes
unfolding edited
resolve_bytes (genuine edits) bytes = edited bytes edits
resolve_bytes (raw bytes) _ = ok bytes

pub data FrameBody : Type 0 where
  whole : Bytes → FrameBody
  reheadered : (ratchet_key : Option Base.Bytes) (previous_chain_len message_number : ℕ) → FrameBody

-- `u32::to_be_bytes`.
abbrev pub to_be_bytes : ℕ → Base.Bytes
to_be_bytes n = reverse (to_le_bytes 4 n)

-- `frame[..PUBLIC_KEY_LEN].copy_from_slice(bytes)`, if there is a key.
abbrev pub with_key : Option Base.Bytes → Base.Bytes → Base.Bytes
with_key none frame = frame
with_key (some bytes) frame = bytes ++ drop public_key_len frame

-- `FrameBody::resolve`.
unfoldable pub resolve_frame : FrameBody → Base.Bytes → Result Crypto.Error Base.Bytes
unfolding resolve_bytes
resolve_frame (whole bytes) frame = resolve_bytes bytes frame
resolve_frame (reheadered ratchet_key previous_chain_len message_number) frame = ok (
    take chain_len_at (with_key ratchet_key frame)
    ++ (to_be_bytes previous_chain_len ++ (to_be_bytes message_number ++ drop header_len frame)))

pub record Input : Type 0 where
  pub nonce : Bytes
  pub frame : FrameBody

-- What the generator draws in the target.
pub record Draws : Type 0 where
  pub sessions : Draw × Draw
  pub nonces : Draw × Draw × Draw
  pub ratchets : Draw × Draw × Draw × Draw

-- `bob.decrypt(&peer)` and its two assertions.
abbrev pub check_peer : Bool → Result Error Base.Bytes → Result Error (Unit {0})
check_peer is_genuine (ok opened) = if is_genuine && beq opened plaintext then ok tt else panic
check_peer is_genuine (err e) = if not is_genuine then ok tt else panic
check_peer is_genuine panic = panic

-- `assert_eq!(bob.decrypt(&genuine).is_ok(), !is_genuine)`.
abbrev pub check_genuine : Bool → Result Error Base.Bytes → Result Error (Unit {0})
check_genuine is_genuine (ok opened) = if not is_genuine then ok tt else panic
check_genuine is_genuine (err e) = if is_genuine then ok tt else panic
check_genuine is_genuine panic = panic

-- `assert!(bob.decrypt(&next).is_ok_and(|plaintext| *plaintext == PLAINTEXT))`.
abbrev pub check_next : Result Error Base.Bytes → Result Error (Unit {0})
check_next (ok opened) = if beq opened plaintext then ok tt else panic
check_next (err e) = panic
check_next panic = panic

-- `expect` on the answer of a session, which goes on.
abbrev pub expected :
    {A : Type 0}
    → Result Error A × Session
    → (A → Session → Result Error (Unit {0}))
    → Result Error (Unit {0})
expected (ok a, s) f = f a s
expected (err e, s) f = panic
expected (panic, s) f = panic

-- An assertion on the answer of a session, which goes on.
abbrev pub asserted :
    (Result Error Base.Bytes → Result Error (Unit {0}))
    → Result Error Base.Bytes × Session
    → (Session → Result Error (Unit {0}))
    → Result Error (Unit {0})
asserted check (r, s) f = check r >>= λ _. f s

unfoldable pub is_same : SealedFrame → SealedFrame → Bool
is_same peer own = beq peer.nonce.as_bytes own.nonce.as_bytes && beq peer.frame own.frame

-- `SealedFrame { nonce: .., frame: .. }` from the input.
unfoldable pub peer_frame : Input → SealedFrame → Result Error SealedFrame
unfolding resolve_bytes resolve_frame
peer_frame input own = expect (resolve_bytes input.nonce own.nonce.as_bytes) >>= λ nonce.
    expect (resolve_frame input.frame own.frame) >>= λ frame.
    ok (record { nonce = record { as_bytes = nonce }; frame = frame })

module _ (P : Primitives) where
  -- The second half of the target: the peer's frame, then the genuine one, then the next one.
  unfoldable pub challenge :
      Draws → Input → SealedFrame → (alice bob : Session) → Result Error (Unit {0})
  unfolding is_same peer_frame
  challenge draws input own alice bob = peer_frame input own >>= λ peer.
      (let (_, again, second, third) = draws.ratchets in
        let is_genuine = is_same peer own in
        asserted (check_peer is_genuine) (decrypt P peer again bob) (λ bob.
          asserted (check_genuine is_genuine) (decrypt P own second bob) (λ bob.
            expected (encrypt P draws.nonces.2 plaintext alice)
              (λ next alice. asserted check_next (decrypt P next third bob) (λ bob. ok tt)))))

  -- The fuzz target.
  unfoldable pub ratchet_header : Draws → Input → Result Error (Unit {0})
  unfolding challenge
  ratchet_header draws input = start P draws.sessions.0 draws.sessions.1 >>= λ sessions.
      expected (encrypt P draws.nonces.0 plaintext sessions.0) (λ opening alice.
        expected (decrypt P opening draws.ratchets.0 sessions.1) (λ opened bob.
          expected (encrypt P draws.nonces.1 plaintext alice)
            (λ own alice. challenge draws input own alice bob)))
