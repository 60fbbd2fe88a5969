-- ===== src/X3dh/Tests.antt =====
-- The theorems about session establishment, applied to sample keys over the toy library functions.
use quietwire.Base.{ℕ, ◌≡◌, refl, ◌⊎◌, some, replicate, length, [], ◌∷◌, map, arith}
use quietwire.Crypto.Aead.{Nonce, seal, open_sealed}
use quietwire.Ratchet.Session.Bursts.{after_all, encrypt_all}
use quietwire.Ratchet.Session.Conversing.{Round, IsRound, converse, due_in, receiver_after}
use quietwire.X3dh.Conversation.{exchange_converses}
use quietwire.Base.{ok, err}
use quietwire.Bytes.{Bytes, beq, from_le_bytes, to_le_bytes}
use quietwire.Crypto.{invalid_public_key}
use quietwire.Crypto.Secret.{SecretKey, from_slice, from_array}
use quietwire.Crypto.Kdf.{hkdf_sha512, hmac_sha512}
use quietwire.Crypto.Hash.{derive_key}
use quietwire.Crypto.X25519.{PrivateKey, public_key, diffie_hellman}
use quietwire.Crypto.MlKem.{DecapsulationKey, encapsulation_key, encapsulate_with, decapsulate}
use quietwire.Crypto.MlKem
use quietwire.Crypto.Ed25519
use quietwire.Ratchet.Chain.{
  kdf_root, start, next_message_key, into_chain, at, message_key, new, skip_to, skip_loop,
}
use quietwire.Ratchet.Header.{parse, to_bytes}
use quietwire.Ratchet.Skipped.{position, extend, remove, key_at}
use quietwire.Ratchet.Session.{Session, initiator_with, encrypt_with, decrypt_with}
use quietwire.Ratchet.Session as Ratchet
use quietwire.Ratchet.Session.Start.{started}
use quietwire.X3dh.{
  IdentityPublic, Initiator, Responder, InitialMessage, bundle, initiate_with, respond,
}
use quietwire.X3dh.Agreement.{Owns, message_of, initiate_with-respond}
use quietwire.Toy.{
  toy, toy-HasLengths, toy-OpensSealed, toy-DhCommutes, toy_kem, toy_kem-Decapsulates,
  toy_signature, multiply, expand, digest, authenticate, encrypt, decrypt, tag_of, mac,
}

abbrev private_key : ℕ → PrivateKey
private_key n = record { secret = record { expose_secret = replicate 32 n } }

abbrev kem : DecapsulationKey
kem = record {
  d = record { expose_secret = replicate 32 1 };
  z = record { expose_secret = replicate 32 2 };
}

abbrev identity : ℕ → DecapsulationKey → IdentityPublic toy toy_kem toy_signature
identity n key = record {
  sign = record { inner = replicate 32 n };
  dh = public_key toy (private_key n);
  kem = encapsulation_key toy_kem key;
}

abbrev alice : Initiator toy toy_kem toy_signature
alice = record { identity = identity 17 kem; identity_dh = private_key 17 }

abbrev bob : Responder toy toy_kem toy_signature
bob = record {
  identity = identity 19 kem;
  identity_dh = private_key 19;
  kem = kem;
  signed_prekey = private_key 7;
  one_time_prekey = some (private_key 23);
}

owns : Owns toy toy_kem toy_signature alice bob
owns = record { initiator_dh = refl; responder_dh = refl; responder_kem = refl }

abbrev randomness : Bytes
randomness = replicate 32 3

abbrev ephemeral : PrivateKey
ephemeral = private_key 29

initiate_with-respond_example :
    let encapsulation = encapsulate_with toy_kem bob.identity.kem randomness in
    let message = message_of toy toy_kem toy_signature ephemeral encapsulation.0 in
    let sent =
      initiate_with toy toy_kem toy_signature alice
        (bundle toy toy_kem toy_signature bob)
        ephemeral
        encapsulation in
    let received = respond toy toy_kem toy_signature bob alice.identity message in
    ((sent ≡ err invalid_public_key) × (received ≡ err invalid_public_key))
    ⊎ ((key : SecretKey) × (sent ≡ ok (key, message))
        × (received ≡ ok key)
        × (length key.expose_secret ≡ 32))
initiate_with-respond_example =
    initiate_with-respond toy toy_kem toy_signature toy-HasLengths toy-DhCommutes
      toy_kem-Decapsulates alice bob ephemeral randomness owns

abbrev key : SecretKey
key = record { expose_secret = replicate 32 166 }

abbrev message : InitialMessage
message =
    message_of toy toy_kem toy_signature ephemeral
      (encapsulate_with toy_kem bob.identity.kem randomness).0

sends :
    initiate_with toy toy_kem toy_signature alice
      (bundle toy toy_kem toy_signature bob)
      ephemeral
      (encapsulate_with toy_kem bob.identity.kem randomness)
    ≡ ok (key, message)
unfolding initiate_with diffie_hellman beq multiply bundle public_key hkdf_sha512 expand from_slice
    derive_key digest Ed25519.to_bytes MlKem.to_bytes encapsulation_key encapsulate_with from_array
sends = refl

abbrev session : Session
session =
    started toy (public_key toy (private_key 7)) (private_key 11)
      (record { expose_secret = replicate 32 228 }) (replicate 32 228)

starts : initiator_with toy key (public_key toy (private_key 7)) (private_key 11) ≡ ok session
unfolding initiator_with kdf_root diffie_hellman beq multiply public_key hkdf_sha512 expand
    from_slice start from_array
starts = refl

-- Alice sends two frames, of which the second arrives first and twice; Bob answers with one.
abbrev nonce : Nonce
nonce = record { as_bytes = replicate 24 2 }

abbrev plaintext : Bytes
plaintext = replicate 396 1

abbrev asks : Round
asks = record {
  messages = (nonce, plaintext) ∷ (nonce, plaintext) ∷ [];
  first = 1;
  later = 1 ∷ 0 ∷ [];
  own = private_key 13;
}

abbrev answers : Round
answers = record { messages = (nonce, plaintext) ∷ []; first = 0; later = []; own = private_key 31 }

asks-IsRound :
    IsRound toy (public_key toy (private_key 11) ∷ public_key toy (private_key 7) ∷ []) asks session
unfolding kdf_root diffie_hellman beq multiply public_key hkdf_sha512 expand from_slice from_array
asks-IsRound = record {
  sizes = (refl, (refl, tt));
  arrives_first = omega arith;
  new = (refl, (refl, tt));
  root = record { expose_secret = replicate 32 228 };
  sending_key = replicate 32 228;
  accepted = refl;
}

abbrev bob_session : Session
bob_session = Ratchet.responder toy key (private_key 7)

answers-IsRound :
    IsRound toy
      (public_key toy (private_key 13)
        ∷ public_key toy (private_key 11)
        ∷ public_key toy (private_key 7)
        ∷ [])
      answers
      (receiver_after toy asks session bob_session)
unfolding kdf_root diffie_hellman beq multiply public_key hkdf_sha512 expand from_slice from_array
    Ratchet.responder after_all encrypt_all encrypt_with decrypt_with next_message_key hmac_sha512
    authenticate seal encrypt tag_of into_chain at position parse to_bytes message_key from_le_bytes
    to_le_bytes new skip_to open_sealed extend remove decrypt mac skip_loop start key_at
answers-IsRound = record {
  sizes = (refl, tt);
  arrives_first = omega arith;
  new = (refl, (refl, (refl, tt)));
  root = record { expose_secret = replicate 32 100 };
  sending_key = replicate 32 100;
  accepted = refl;
}

exchange_converses_example :
    (respond toy toy_kem toy_signature bob alice.identity message ≡ ok key)
    × (converse toy (asks ∷ answers ∷ []) session bob_session ≡ map due_in (asks ∷ answers ∷ []))
exchange_converses_example =
    exchange_converses toy toy_kem toy_signature toy-HasLengths toy-OpensSealed toy-DhCommutes
      toy_kem-Decapsulates alice bob ephemeral (private_key 11) randomness key message session
      (asks ∷ answers ∷ []) owns sends starts (asks-IsRound, (answers-IsRound, tt)) (omega arith)
