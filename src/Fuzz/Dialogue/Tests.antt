-- ===== src/Fuzz/Dialogue/Tests.antt =====
-- The theorems about a conversation of the fuzz target, applied to a short one over the toy library
-- functions.
use quietwire.Base.{ℕ, ◌≡◌, refl, false, some, none, List, [], ◌∷◌, replicate, take}
use quietwire.Base.{ok}
use quietwire.Bytes.{beq}
use quietwire.Crypto.Secret.{Draw, fill, random, build_in_place, from_slice, from_array}
use quietwire.Crypto.Kdf.{hkdf_sha512}
use quietwire.Crypto.X25519
use quietwire.Crypto.X25519.{PrivateKey, public_key, diffie_hellman}
use quietwire.Ratchet.Chain.{kdf_root}
use quietwire.Ratchet.Chain as Chain
use quietwire.Ratchet.Session.{initiator, initiator_with, responder}
use quietwire.Ratchet.Session.Start.{started}
use quietwire.Fuzz.{start, shared_key}
use quietwire.Fuzz.Dialogue.{
  alice, bob, Action, send, deliver, tamper, Conversation, opening, ratchet_session, max_actions,
}
use quietwire.Fuzz.Dialogue.Journal.{blank}
use quietwire.Fuzz.Dialogue.Invariant.{IsConversation}
use quietwire.Fuzz.Dialogue.Opening.{opening-IsConversation}
use quietwire.Fuzz.Dialogue.Runs.{RunEnds, ratchet_session_lem}
use quietwire.Toy.{toy, toy-HasLengths, toy-OpensSealed, multiply, expand}

abbrev private_key : ℕ → PrivateKey
private_key n = record { secret = record { expose_secret = replicate 32 n } }

abbrev first : Conversation
first = record {
  alice_session =
      started toy (public_key toy (private_key 7)) (private_key 11)
        (record { expose_secret = replicate 32 100 }) (replicate 32 100);
  bob_session = responder toy (record { expose_secret = shared_key }) (private_key 7);
  to_alice = [];
  to_bob = [];
  bob_has_received = false;
  sent = 0;
}

opens : opening toy (some (replicate 32 7)) (some (replicate 32 11)) ≡ ok first
unfolding opening start X25519.generate random build_in_place fill from_slice initiator
    initiator_with kdf_root diffie_hellman beq multiply public_key hkdf_sha512 expand Chain.start
    from_array responder
opens = refl

first-IsConversation : IsConversation first
first-IsConversation =
    (opening-IsConversation toy toy-HasLengths (some (replicate 32 7)) (some (replicate 32 11))
      first opens).0

-- The initiator sends twice, the second frame arrives first and again, a copy of the first is tampered
-- with, and the responder answers.
abbrev actions : List (Action × Draw)
actions =
    (send alice, some (replicate 24 1))
    ∷ (send alice, some (replicate 24 2))
    ∷ (deliver bob 1, some (replicate 32 13))
    ∷ (deliver bob 1, none)
    ∷ (tamper bob 0 5 128, none)
    ∷ (send bob, some (replicate 24 3))
    ∷ []

ratchet_session_lem_example :
    RunEnds toy toy-HasLengths toy-OpensSealed
      (take max_actions actions)
      blank
      first
      (ratchet_session toy (some (replicate 32 7)) (some (replicate 32 11)) actions)
ratchet_session_lem_example =
    ratchet_session_lem toy toy-HasLengths toy-OpensSealed (some (replicate 32 7))
      (some (replicate 32 11)) actions first opens (refl, (refl, (tt, (tt, (tt, (refl, tt))))))
