-- ===== src/Ratchet/Session/Tests.antt =====
-- The theorems about sessions, applied to two of them over the toy library functions.
use quietwire.Base.{
  ℕ, ◌≤◌, ◌<◌, ◌≡◌, ◌≢◌, ◌⊎◌, inr, refl, List, [], ◌∷◌, none, some, arith, replicate,
}
use quietwire.Base.{Result, ok, err, panic}
use quietwire.Bytes.{Bytes, beq}
use quietwire.Crypto
use quietwire.Crypto.{authentication, invalid_public_key}
use quietwire.Crypto.Secret.{SecretKey, from_slice, from_array}
use quietwire.Crypto.Kdf.{hkdf_sha512}
use quietwire.Crypto.Aead.{Nonce}
use quietwire.Crypto.X25519.{PrivateKey, PublicKey, public_key, diffie_hellman}
use quietwire.Ratchet.{Key, SealedFrame, crypto, sending_blocked, chain_limit, max_skip_per_chain}
use quietwire.Ratchet.Header.{Header, parse}
use quietwire.Ratchet.Chain.{Chain, start, kdf_root}
use quietwire.Ratchet.Chain.Schedule.{advance}
use quietwire.Ratchet.Chain.Keys.{length-advance}
use quietwire.Ratchet.Skipped.{position, count_in_chain}
use quietwire.Ratchet.Session.Crossing.{none_taken}
use quietwire.Ratchet.Session.Bursts.{NextRatchet, encrypt_all, decrypt_all, due}
use quietwire.Ratchet.Session.Reordering.{reordered}
use quietwire.Ratchet.Session.{
  Session, initiator_with, responder, encrypt_with, decrypt_with, next_or_zero,
}
use quietwire.Ratchet.Session.Steps.{chain_at}
use quietwire.Ratchet.Session.Invariant.{IsValid}
use quietwire.Ratchet.Session.Encrypt.{Sent, IsBlocked, encrypt_with-Sent, encrypt_with-cases}
use quietwire.Ratchet.Session.Atomicity.{Atomic, decrypt_with-Atomic}
use quietwire.Ratchet.Session.Reachable.{responded, received, Reachable-IsValid}
use quietwire.Ratchet.Session.Replay.{decrypt_with_once}
use quietwire.Ratchet.Session.Delivery.{Follows, IsFrame, decrypt_with_delivers}
use quietwire.Ratchet.Session.Exchange.{IsReady, Turn, Sent-IsFrame}
use quietwire.Ratchet.Session.Turns.{Turned, turn_crosses}
use quietwire.Ratchet.Session.Start.{started, responder-IsValid}
use quietwire.Toy.{toy, toy-HasLengths, toy-OpensSealed, toy-DhCommutes, multiply, expand}

abbrev secret : ℕ → SecretKey
secret n = record { expose_secret = replicate 32 n }

abbrev private_key : ℕ → PrivateKey
private_key n = record { secret = secret n }

abbrev shared_key : SecretKey
shared_key = secret 5

abbrev signed_prekey : PrivateKey
signed_prekey = private_key 7

abbrev alice_key : PrivateKey
alice_key = private_key 11

abbrev bob_key : PrivateKey
bob_key = private_key 13

abbrev chain_key : Key
chain_key = replicate 32 196

abbrev alice : Session
alice = started toy (public_key toy signed_prekey) alice_key (secret 196) chain_key

abbrev bob : Session
bob = responder toy shared_key signed_prekey

abbrev nonce : Nonce
nonce = record { as_bytes = replicate 24 2 }

abbrev plaintext : Bytes
plaintext = replicate 396 1

alice_starts : initiator_with toy shared_key (public_key toy signed_prekey) alice_key ≡ ok alice
unfolding initiator_with start kdf_root diffie_hellman beq multiply public_key hkdf_sha512 expand
    from_slice from_array
alice_starts = refl

bob-IsValid : IsValid bob
bob-IsValid = responder-IsValid toy shared_key signed_prekey refl

no_keys : (r : PublicKey) → count_in_chain r [] ≤ max_skip_per_chain
unfolding count_in_chain
no_keys r = omega arith

alice_at-IsValid :
    (n : ℕ)
    → n ≤ chain_limit
    → IsValid (record alice { sending = some (chain_at (advance toy chain_key n) n) })
alice_at-IsValid n h = record {
  root_len = refl;
  sends = record { key_len = length-advance toy toy-HasLengths chain_key n refl; within = h };
  receives = tt;
  previous_within = omega arith;
  skips = tt;
  total = omega arith;
  per_chain = no_keys;
}

alice-IsValid : IsValid alice
unfolding advance
alice-IsValid = alice_at-IsValid 0 (omega arith)

start-Turn : Turn toy chain_key 0 alice bob
unfolding responder advance kdf_root diffie_hellman beq multiply public_key hkdf_sha512 expand
    from_slice from_array
start-Turn = record {
  start_len = refl;
  sends = refl;
  agreed = refl;
  ready = record { fresh = refl; none_kept = tt; caught_up = tt };
}

bob_step :
    kdf_root toy (secret 196) bob_key (public_key toy alice_key) ≡ ok (secret 228, replicate 32 228)
unfolding kdf_root diffie_hellman beq multiply public_key hkdf_sha512 expand from_slice from_array
bob_step = refl

alice-IsReady : IsReady toy (public_key toy bob_key) (next_or_zero bob.sending) alice
unfolding responder public_key beq multiply
alice-IsReady = record { fresh = refl; none_kept = tt; caught_up = tt }

first_turn : Turned toy chain_key 0 alice bob nonce plaintext bob_key (replicate 32 228)
first_turn =
    turn_crosses toy toy-HasLengths toy-OpensSealed toy-DhCommutes chain_key 0 alice bob nonce
      plaintext bob_key (secret 228) (replicate 32 228) alice-IsValid refl (omega arith) start-Turn
      bob_step alice-IsReady

turn_crosses_example : Turned toy chain_key 0 alice bob nonce plaintext bob_key (replicate 32 228)
turn_crosses_example =
    turn_crosses toy toy-HasLengths toy-OpensSealed toy-DhCommutes chain_key 0 alice bob nonce
      plaintext bob_key (secret 228) (replicate 32 228) alice-IsValid refl (omega arith) start-Turn
      bob_step alice-IsReady

abbrev draws : PrivateKey → Result Crypto.Error PrivateKey
draws own = ok own

no_panic : (own : PrivateKey) → draws own ≢ panic
no_panic own e = absurd (cc)

nothing_held : (h : Header) → position bob.skipped h ≡ none
unfolding responder position
nothing_held h = refl

decrypt_with-Atomic_example : Atomic bob (decrypt_with toy first_turn.sealed (ok bob_key) bob)
decrypt_with-Atomic_example =
    decrypt_with-Atomic toy toy-HasLengths first_turn.sealed first_turn.framed (ok bob_key)
      (no_panic bob_key) bob bob-IsValid

-- Whatever comes with the first frame for the second time.
decrypt_with_once_example :
    decrypt_with toy first_turn.sealed (err Crypto.rng) first_turn.receiver
    ≡ (err (crypto authentication), first_turn.receiver)
decrypt_with_once_example =
    decrypt_with_once toy toy-HasLengths first_turn.sealed first_turn.framed (ok bob_key)
      (err Crypto.rng) (no_panic bob_key) bob first_turn.receiver plaintext bob-IsValid
      (nothing_held (parse first_turn.sealed.frame)) first_turn.decrypts

-- The frame with number 2, when number 1 has not arrived.
abbrev alice_later : Session
alice_later = record alice { sending = some (chain_at (advance toy chain_key 2) 2) }

third :
    Sent toy nonce plaintext alice_later
      (chain_at (advance toy chain_key 2) 2)
      (encrypt_with toy nonce plaintext alice_later)
third =
    encrypt_with-Sent toy toy-HasLengths toy-OpensSealed nonce plaintext alice_later
      (chain_at (advance toy chain_key 2) 2) (alice_at-IsValid 2 (omega arith)) refl refl
      (omega arith)

abbrev third_frame : SealedFrame
third_frame = record { nonce = nonce; frame = third.frame }

third-IsFrame : IsFrame toy chain_key (public_key toy alice_key) 2 plaintext third_frame
third-IsFrame =
    Sent-IsFrame toy chain_key 2 nonce plaintext alice_later
      (encrypt_with toy nonce plaintext alice_later) third

decrypt_with_delivers_example :
    (next' : ℕ) × (s' : Session) × (decrypt_with toy third_frame (ok bob_key) first_turn.receiver
      ≡ (ok plaintext, s'))
    × Follows toy chain_key (public_key toy alice_key) next' s'
decrypt_with_delivers_example =
    decrypt_with_delivers toy toy-HasLengths chain_key (public_key toy alice_key) third_frame
      (ok bob_key) 1 2 first_turn.receiver plaintext first_turn.follows third-IsFrame
      (inr (omega arith, omega arith, omega arith))

encrypt_with-cases_example :
    (IsBlocked bob.sending × (encrypt_with toy nonce plaintext bob ≡ (err sending_blocked, bob)))
    ⊎ ((chain : Chain) × (bob.sending ≡ some chain)
        × (chain.next < chain_limit)
        × Sent toy nonce plaintext bob chain (encrypt_with toy nonce plaintext bob))
encrypt_with-cases_example =
    encrypt_with-cases toy toy-HasLengths toy-OpensSealed nonce plaintext bob bob-IsValid refl

Reachable-IsValid_example : IsValid (decrypt_with toy first_turn.sealed (ok bob_key) bob).1
Reachable-IsValid_example =
    Reachable-IsValid toy toy-HasLengths toy-OpensSealed
      (decrypt_with toy first_turn.sealed (ok bob_key) bob).1
      (received first_turn.sealed (ok bob_key) bob first_turn.framed (no_panic bob_key)
        (responded shared_key signed_prekey refl))

-- Three frames in a row, of which the last arrives first and twice.
abbrev messages : List (Nonce × Bytes)
messages = (nonce, plaintext) ∷ (nonce, plaintext) ∷ (nonce, plaintext) ∷ []

abbrev more : List (ℕ × NextRatchet)
more = (0, panic) ∷ (2, panic) ∷ (1, panic) ∷ []

reordered_example :
    (frames : List SealedFrame) × (a' : Session) × (encrypt_all toy messages alice
      ≡ (ok frames, a'))
    × (decrypt_all toy frames ((2, ok bob_key) ∷ more) bob
        ≡ due none_taken 0 (plaintext ∷ plaintext ∷ plaintext ∷ []) ((2, ok bob_key) ∷ more))
unfolding responder
reordered_example =
    reordered toy toy-HasLengths toy-OpensSealed chain_key 0 alice bob messages 2 more bob_key
      (secret 228) (replicate 32 228) alice-IsValid (refl, (refl, (refl, tt))) start-Turn
      (omega arith) (omega arith) bob_step
