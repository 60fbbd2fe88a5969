-- ===== src/Fuzz/Reheadered/Tests.antt =====
-- The theorem about the target of the header, applied to a frame with one bit of its message number
-- changed, over the toy library functions.
use quietwire.Base.{ℕ, ◌≡◌, refl, ◌⊎◌, some, none, [], ◌∷◌, replicate}
use quietwire.Base.{ok, panic}
use quietwire.Bytes.{beq}
use quietwire.Crypto.Secret.{SecretKey, fill, random, build_in_place, from_slice, from_array}
use quietwire.Crypto.Kdf.{hkdf_sha512}
use quietwire.Crypto.X25519
use quietwire.Crypto.X25519.{PrivateKey, public_key, diffie_hellman}
use quietwire.Ratchet.Chain.{kdf_root}
use quietwire.Ratchet.Chain as Chain
use quietwire.Ratchet.Session.{Session, initiator, initiator_with, responder}
use quietwire.Ratchet.Session.Start.{started}
use quietwire.Fuzz.{start, shared_key}
use quietwire.Fuzz.Reheadered.{Input, Draws, genuine, whole, ratchet_header}
use quietwire.Fuzz.Reheadered.Passing.{Forged, ratchet_header_lem}
use quietwire.Toy.{toy, toy-HasLengths, toy-OpensSealed, toy-DhCommutes, multiply, expand}

abbrev private_key : ℕ → PrivateKey
private_key n = record { secret = record { expose_secret = replicate 32 n } }

abbrev alice : Session
alice =
    started toy (public_key toy (private_key 7)) (private_key 11)
      (record { expose_secret = replicate 32 100 }) (replicate 32 100)

abbrev bob : Session
bob = responder toy (record { expose_secret = shared_key }) (private_key 7)

starts : start toy (some (replicate 32 7)) (some (replicate 32 11)) ≡ ok (alice, bob)
unfolding start X25519.generate random build_in_place fill from_slice initiator initiator_with
    kdf_root diffie_hellman beq multiply public_key hkdf_sha512 expand Chain.start from_array
    responder
starts = refl

abbrev after_step : SecretKey
after_step = record { expose_secret = replicate 32 228 }

steps :
    kdf_root toy alice.root_key (private_key 13) (public_key toy alice.own_ratchet)
    ≡ ok (after_step, replicate 32 228)
unfolding kdf_root diffie_hellman beq multiply public_key hkdf_sha512 expand from_slice from_array
steps = refl

abbrev input : Input
input = record { nonce = genuine []; frame = whole (genuine (record { at = 36; xor = 1 } ∷ [])) }

abbrev draws : Draws
draws = record {
  sessions = (some (replicate 32 7), some (replicate 32 11));
  nonces = (some (replicate 24 1), some (replicate 24 2), some (replicate 24 3));
  ratchets = (some (replicate 32 13), none, none, none);
}

ratchet_header_lem_example :
    (ratchet_header toy draws input ≡ ok tt)
    ⊎ ((ratchet_header toy draws input ≡ panic) × Forged toy draws input alice bob)
ratchet_header_lem_example =
    ratchet_header_lem toy toy-HasLengths toy-OpensSealed toy-DhCommutes (some (replicate 32 7))
      (some (replicate 32 11)) (replicate 24 1) (replicate 24 2) (replicate 24 3) (replicate 32 13)
      none none none input alice bob after_step (replicate 32 228) starts refl steps tt tt
