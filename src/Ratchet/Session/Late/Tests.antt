-- ===== src/Ratchet/Session/Late/Tests.antt =====
-- The theorem about late frames, applied to sessions over the toy library functions.
use quietwire.Base.{
  ℕ, ◌≤◌, ◌≡◌, refl, ap, Bool-cases, ltb, inl, inr, [], ◌∷◌, none, some, arith, replicate,
}
use quietwire.Base.{ok, err, panic}
use quietwire.Bytes.{Bytes, beq}
use quietwire.Crypto.{authentication}
use quietwire.Crypto.Secret.{SecretKey, from_slice, from_array}
use quietwire.Crypto.Kdf.{hkdf_sha512}
use quietwire.Crypto.Aead.{Nonce}
use quietwire.Crypto.X25519.{PrivateKey, PublicKey, public_key, diffie_hellman}
use quietwire.Ratchet.{Key, SealedFrame, crypto, chain_limit, max_skip_per_chain}
use quietwire.Ratchet.Chain.{kdf_root}
use quietwire.Ratchet.Chain.Schedule.{advance}
use quietwire.Ratchet.Chain.Keys.{length-advance}
use quietwire.Ratchet.Skipped.{count_in_chain}
use quietwire.Ratchet.Skipped.Matches.{matches}
use quietwire.Ratchet.Session.{Session, encrypt_with}
use quietwire.Ratchet.Session.Steps.{chain_at}
use quietwire.Ratchet.Session.Invariant.{IsValid}
use quietwire.Ratchet.Session.Encrypt.{Sent, encrypt_with-Sent}
use quietwire.Ratchet.Session.Delivery.{IsFrame}
use quietwire.Ratchet.Session.Exchange.{Turn, Sent-IsFrame}
use quietwire.Ratchet.Session.Mirrors.{Mirrors}
use quietwire.Ratchet.Session.Late.{decrypt_each, no_more, comes_late, comes_again}
use quietwire.Ratchet.Session.Late.Retired.{late_frames}
use quietwire.Toy.{toy, toy-HasLengths, toy-OpensSealed, multiply, expand}

abbrev secret : ℕ → SecretKey
secret n = record { expose_secret = replicate 32 n }

abbrev private_key : ℕ → PrivateKey
private_key n = record { secret = secret n }

abbrev old_key : PrivateKey
old_key = private_key 17

abbrev alice_key : PrivateKey
alice_key = private_key 11

abbrev bob_key : PrivateKey
bob_key = private_key 13

abbrev signed_prekey : PrivateKey
signed_prekey = private_key 7

abbrev chain_key : Key
chain_key = replicate 32 196

abbrev nonce : Nonce
nonce = record { as_bytes = replicate 24 2 }

abbrev plaintext : Bytes
plaintext = replicate 396 1

-- Alice at number `n` of the chain of `own`, after one of `previous` frames.
abbrev alice : PrivateKey → (previous n : ℕ) → Session
alice own previous n = record {
  root_key = secret 196;
  own_ratchet = own;
  remote_ratchet = some (public_key toy signed_prekey);
  sending = some (chain_at (advance toy chain_key n) n);
  receiving = none;
  previous_sending_len = previous;
  skipped = [];
}

-- Bob, who has the first frame of the three that Alice sent under her old key.
abbrev bob : Session
bob = record {
  root_key = secret 5;
  own_ratchet = signed_prekey;
  remote_ratchet = some (public_key toy old_key);
  sending = none;
  receiving = some (chain_at (advance toy chain_key 1) 1);
  previous_sending_len = 0;
  skipped = [];
}

no_keys : (r : PublicKey) → count_in_chain r [] ≤ max_skip_per_chain
unfolding count_in_chain
no_keys r = omega arith

alice-IsValid :
    (own : PrivateKey) (previous n : ℕ)
    → previous ≤ chain_limit
    → n ≤ chain_limit
    → IsValid (alice own previous n)
alice-IsValid own previous n hp hn = record {
  root_len = refl;
  sends = record { key_len = length-advance toy toy-HasLengths chain_key n refl; within = hn };
  receives = tt;
  previous_within = hp;
  skips = tt;
  total = omega arith;
  per_chain = no_keys;
}

sent :
    (own : PrivateKey) (previous n : ℕ)
    → previous ≤ 3
    → n ≤ 3
    → Sent toy nonce plaintext
        (alice own previous n)
        (chain_at (advance toy chain_key n) n)
        (encrypt_with toy nonce plaintext (alice own previous n))
sent own previous n hp hn =
    encrypt_with-Sent toy toy-HasLengths toy-OpensSealed nonce plaintext (alice own previous n)
      (chain_at (advance toy chain_key n) n)
      (alice-IsValid own previous n (omega arith) (omega arith)) refl refl (omega arith)

sealed : (own : PrivateKey) (previous n : ℕ) → previous ≤ 3 → n ≤ 3 → SealedFrame
sealed own previous n hp hn = record { nonce = nonce; frame = (sent own previous n hp hn).frame }

sealed-IsFrame :
    (own : PrivateKey) (previous n : ℕ) (hp : previous ≤ 3) (hn : n ≤ 3)
    → IsFrame toy chain_key (public_key toy own) n plaintext (sealed own previous n hp hn)
unfolding sealed
sealed-IsFrame own previous n hp hn =
    Sent-IsFrame toy chain_key n nonce plaintext (alice own previous n)
      (encrypt_with toy nonce plaintext (alice own previous n)) (sent own previous n hp hn)

bob-Mirrors : Mirrors toy chain_key (public_key toy old_key) 0 1 (λ (j : ℕ). ltb j 1) bob
unfolding matches
bob-Mirrors = record {
  follows = record { start_len = refl; remote = refl; receiving = refl; kept = tt };
  seen = λ n e. ground arith;
  waits = λ h e. elim (Bool-cases (ltb h.message_number 1)) [
    | inl before ↦ ground arith
    | inr after ↦ ground arith
  ];
  room = omega arith;
}

alice-Turn : Turn toy chain_key 0 (alice alice_key 3 0) bob
unfolding advance kdf_root diffie_hellman beq multiply public_key hkdf_sha512 expand from_slice
    from_array
alice-Turn = record {
  start_len = refl;
  sends = refl;
  agreed = refl;
  ready = record {
    fresh = refl;
    none_kept = tt;
    caught_up = (omega arith, omega arith, omega arith);
  };
}

bob_step :
    kdf_root toy (secret 196) bob_key (public_key toy alice_key) ≡ ok (secret 228, replicate 32 228)
unfolding kdf_root diffie_hellman beq multiply public_key hkdf_sha512 expand from_slice from_array
bob_step = refl

few : 3 ≤ 3
few = omega arith

one : 0 ≤ 3
one = omega arith

two : 2 ≤ 3
two = omega arith

first : SealedFrame
first = sealed alice_key 3 0 few one

last_old : SealedFrame
last_old = sealed old_key 0 2 one two

-- The first frame of the new chain, the last of the old one, and the first again.
late_frames_example :
    decrypt_each toy ((first, ok bob_key) ∷ (last_old, panic) ∷ (first, panic) ∷ []) bob
    ≡ ok plaintext ∷ ok plaintext ∷ err (crypto authentication) ∷ []
unfolding first last_old sealed
late_frames_example =
    late_frames toy toy-HasLengths chain_key (public_key toy old_key) 0 1 (λ (j : ℕ). ltb j 1)
      chain_key 0 1 (alice alice_key 3 0) bob bob_key first plaintext (secret 228)
      (replicate 32 228) ((last_old, panic) ∷ (first, panic) ∷ [])
      (ok plaintext ∷ err (crypto authentication) ∷ []) bob-Mirrors (omega arith) alice-Turn
      (sealed-IsFrame alice_key 3 0 few one)
      (ap (λ h. h.previous_chain_len) (sent alice_key 3 0 few one).header) (omega arith)
      (omega arith) bob_step
      (comes_late 2 plaintext last_old panic (omega arith) refl (sealed-IsFrame old_key 0 2 one two)
        (comes_again 0 plaintext first panic (omega arith) refl
          (sealed-IsFrame alice_key 3 0 few one) no_more))
