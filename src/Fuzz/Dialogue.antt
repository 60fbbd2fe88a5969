-- ===== src/Fuzz/Dialogue.antt =====
-- tools/fuzz/fuzz_targets/ratchet_session.rs: a whole conversation driven by a peer, with frames
-- reordered, lost, duplicated and tampered with. A failed assertion is a panic. Each action is given
-- what the generator draws in it.
pub mod Invariant
pub mod Journal
pub mod Inboxes
pub mod Notes
pub mod Sends
pub mod Receives
pub mod Tampers
pub mod Opening
pub mod Promises
pub mod Ends
pub mod Runs
mod Tests
use quietwire.Base.{
  ℕ, ◌+◌, ◌-◌, ◌%◌, ◌^◌, Bool, true, false, not, ◌&&◌, ◌||◌, Option, none, some, List, [], ◌∷◌,
  ◌++◌, ltb, ◌==◌, length, replicate, update, get_elem?, take, if◌then◌else◌,
}
use quietwire.Base.{Result, ok, err, panic, ◌>>=◌}
use quietwire.Bytes.{Bytes, beq, to_le_bytes}
use quietwire.Crypto.{Primitives, authentication}
use quietwire.Crypto.Secret.{Draw}
use quietwire.Crypto.Aead.{Nonce}
use quietwire.Crypto.Aead
use quietwire.Ratchet.{Error, crypto, sending_blocked, too_far_ahead, SealedFrame, frame_len}
use quietwire.Ratchet.Session.{Session, encrypt, decrypt}
use quietwire.Fuzz.{start}
use Prim.Native.Nat.{bit_xor}

abbrev pub max_actions : ℕ
max_actions = 256

abbrev pub sealed_len : ℕ
sealed_len = Aead.nonce_len + frame_len

pub data Party : Type 0 where
  alice bob : Party

unfoldable pub peer : Party → Party
peer alice = bob
peer bob = alice

abbrev pub is_bob : Party → Bool
is_bob alice = false
is_bob bob = true

pub data Action : Type 0 where
  send : Party → Action
  deliver : (to : Party) (pick : ℕ) → Action
  tamper : (to : Party) (pick at xor : ℕ) → Action

pub record InFlight : Type 0 where
  pub sealed : SealedFrame
  pub plaintext : Bytes
  pub opened : Bool

pub record Conversation : Type 0 where
  pub alice_session : Session
  pub bob_session : Session
  pub to_alice : List InFlight
  pub to_bob : List InFlight
  pub bob_has_received : Bool
  pub sent : ℕ

-- The two `&mut` borrows: a read and a write.
unfoldable pub session : Party → Conversation → Session
session alice c = c.alice_session
session bob c = c.bob_session

unfoldable pub set_session : Party → Session → Conversation → Conversation
set_session alice s c = record c { alice_session = s }
set_session bob s c = record c { bob_session = s }

unfoldable pub inbox : Party → Conversation → List InFlight
inbox alice c = c.to_alice
inbox bob c = c.to_bob

unfoldable pub set_inbox : Party → List InFlight → Conversation → Conversation
set_inbox alice frames c = record c { to_alice = frames }
set_inbox bob frames c = record c { to_bob = frames }

-- A plaintext of 396 bytes that starts with the number.
unfoldable pub numbered_plaintext : ℕ → Bytes
numbered_plaintext number = to_le_bytes 4 number ++ replicate 392 0

-- `bytes[at] ^= xor`, which panics out of bounds.
unfoldable pub xor_at : ℕ → ℕ → Bytes → Result Error Bytes
xor_at at xor bytes = elim (get_elem? bytes at) [
  | none ↦ panic
  | some byte ↦ ok (update bytes at (bit_xor byte xor))
]

unfoldable pub tampered : SealedFrame → (byte xor : ℕ) → Result Error SealedFrame
unfolding xor_at
tampered sealed byte xor =
    if ltb byte Aead.nonce_len
    then (xor_at byte xor sealed.nonce.as_bytes >>= λ bytes.
        ok (record sealed { nonce = record { as_bytes = bytes } }))
    else (xor_at (byte - Aead.nonce_len) xor sealed.frame >>= λ bytes.
        ok (record sealed { frame = bytes }))

-- `Conversation::index`.
unfoldable pub index : Party → ℕ → Conversation → Option ℕ
unfolding inbox
index to pick c = let len = length (inbox to c) in if ltb 0 len then some (pick % len) else none

-- The three assertions, on the result of the call and the conversation after it.
abbrev pub assert_blocked : Result Error SealedFrame → Conversation → Result Error Conversation
assert_blocked (err sending_blocked) c = ok c
assert_blocked (err other) c = panic
assert_blocked (ok sealed) c = panic
assert_blocked panic c = panic

abbrev pub assert_authentication : Result Error Bytes → Conversation → Result Error Conversation
assert_authentication (err (crypto authentication)) c = ok c
assert_authentication (err other) c = panic
assert_authentication (ok plaintext) c = panic
assert_authentication panic c = panic

abbrev pub assert_error : Result Error Bytes → Conversation → Result Error Conversation
assert_error (err e) c = ok c
assert_error (ok plaintext) c = panic
assert_error panic c = panic

-- `expect`, and the frame goes to the peer.
abbrev pub push_sent :
    Party → Bytes → Result Error SealedFrame → Conversation → Result Error Conversation
push_sent from plaintext (ok sealed) c =
    let frame : InFlight = record { sealed = sealed; plaintext = plaintext; opened = false } in
    ok (set_inbox (peer from) (inbox (peer from) c ++ (frame ∷ [])) c)
push_sent from plaintext (err e) c = panic
push_sent from plaintext panic c = panic

-- The frame opened to its plaintext, and is marked.
abbrev pub mark_opened :
    Party → ℕ → InFlight → Result Error Bytes → Conversation → Result Error Conversation
mark_opened to i frame (ok plaintext) c =
    if beq plaintext frame.plaintext
    then ok (record (set_inbox to (update (inbox to c) i (record frame { opened = true })) c) {
      bob_has_received = c.bob_has_received || is_bob to;
    })
    else panic
mark_opened to i frame (err e) c = panic
mark_opened to i frame panic c = panic

-- `inbox[index]` panics out of bounds.
abbrev pub with_frame :
    Option InFlight → (InFlight → Result Error Conversation) → Result Error Conversation
with_frame none f = panic
with_frame (some frame) f = f frame

-- `let Some(index) = self.index(to, pick) else { return; }`.
abbrev pub with_index :
    Option ℕ → Conversation → (ℕ → Result Error Conversation) → Result Error Conversation
with_index none c f = ok c
with_index (some i) c f = f i

module _ (P : Primitives) where
  -- `Conversation::new`, with the draws of `Conversation::start`.
  unfoldable pub opening : Draw → Draw → Result Error Conversation
  opening first second = start P first second >>= λ sessions. ok (record {
    alice_session = sessions.0;
    bob_session = sessions.1;
    to_alice = [];
    to_bob = [];
    bob_has_received = false;
    sent = 0;
  })

  -- `Conversation::send`.
  unfoldable pub send_from : Party → Draw → Conversation → Result Error Conversation
  unfolding set_session session set_inbox inbox peer
  send_from from draw c =
      let plaintext = numbered_plaintext c.sent in
      let (result, s) = encrypt P draw plaintext (session from c) in
      let c' = set_session from s (record c { sent = (c.sent + 1) % 2 ^ 32 }) in
      if is_bob from && not c.bob_has_received
      then assert_blocked result c'
      else push_sent from plaintext result c'

  -- `Conversation::deliver`.
  unfoldable pub deliver_to : Party → (pick : ℕ) → Draw → Conversation → Result Error Conversation
  unfolding index set_session session set_inbox inbox
  deliver_to to pick draw c = with_index (index to pick c) c (λ i.
      with_frame (get_elem? (inbox to c) i) (λ frame.
        let (result, s) = decrypt P frame.sealed draw (session to c) in
        let c' = set_session to s c in
        if frame.opened then assert_authentication result c' else mark_opened to i frame result c'))

  -- `Conversation::tamper`.
  unfoldable pub tamper_with :
      Party → (pick at xor : ℕ) → Draw → Conversation → Result Error Conversation
  unfolding index set_session session inbox tampered
  tamper_with to pick at xor draw c = with_index (index to pick c) c (λ i.
      if xor == 0
      then ok c
      else with_frame (get_elem? (inbox to c) i) (λ frame.
        tampered frame.sealed (at % sealed_len) xor >>= λ sealed.
        (let (result, s) = decrypt P sealed draw (session to c) in
          assert_error result (set_session to s c))))

  unfoldable pub apply : Action → Draw → Conversation → Result Error Conversation
  unfolding send_from deliver_to tamper_with
  apply (send from) draw c = send_from from draw c
  apply (deliver to pick) draw c = deliver_to to pick draw c
  apply (tamper to pick at xor) draw c = tamper_with to pick at xor draw c

  unfoldable pub run : List (Action × Draw) → Conversation → Result Error Conversation
  unfolding apply
  run [] c = ok c
  run ((action, draw) ∷ actions) c = apply action draw c >>= λ c'. run actions c'

  -- The fuzz target.
  unfoldable pub ratchet_session : Draw → Draw → List (Action × Draw) → Result Error Conversation
  unfolding opening run
  ratchet_session first second actions =
      opening first second >>= λ c. run (take max_actions actions) c
