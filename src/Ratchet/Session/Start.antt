-- ===== src/Ratchet/Session/Start.antt =====
-- The sessions that `Session::initiator` and `Session::responder` start.
use quietwire.Base.{◌≤◌, ◌≡◌, refl, ◌∙◌, ◌⊎◌, inl, inr, none, some, [], arith, length}
use quietwire.Base.{ok, err}
use quietwire.Crypto.{invalid_public_key, Primitives, HasLengths, DhCommutes}
use quietwire.Crypto.Secret.{SecretKey}
use quietwire.Crypto.X25519.{PrivateKey, PublicKey, public_key}
use quietwire.Ratchet.{crypto, Key, max_skip_per_chain}
use quietwire.Ratchet.Chain.{kdf_root}
use quietwire.Ratchet.Chain.Schedule.{advance}
use quietwire.Ratchet.Skipped.{count_in_chain}
use quietwire.Ratchet.Session.{Session, initiator_with, responder}
use quietwire.Ratchet.Session.Steps.{chain_at, start_lem, kdf_root-cases}
use quietwire.Ratchet.Session.Invariant.{IsValid}
use quietwire.Ratchet.Session.Exchange.{kdf_root_comm, Turn}

module _ (P : Primitives) where
  -- The session that an initiator starts from the keys of its root step.
  abbrev pub started : PublicKey → PrivateKey → SecretKey → Key → Session
  started remote own root chain = record {
    root_key = root;
    own_ratchet = own;
    remote_ratchet = some remote;
    sending = some (chain_at chain 0);
    receiving = none;
    previous_sending_len = 0;
    skipped = [];
  }

  pub initiator_with-cases :
      HasLengths P
      → (shared_key : SecretKey) (remote : PublicKey) (own : PrivateKey)
      → (initiator_with P shared_key remote own ≡ err (crypto invalid_public_key))
        ⊎ ((root : SecretKey) × (chain : Key) × (kdf_root P shared_key own remote
              ≡ ok (root, chain))
            × (length root.expose_secret ≡ 32)
            × (length chain ≡ 32)
            × (initiator_with P shared_key remote own ≡ ok (started remote own root chain)))
  unfolding initiator_with
  initiator_with-cases L shared_key remote own = elim (kdf_root-cases P L shared_key own remote) [
    | inl e ↦ inl (ground arith)
    | inr (root, chain, e, root_len, len) ↦
        inr (root, chain, e, root_len, len, ground (arith, start_lem chain len))
  ]

  no_keys : (r : PublicKey) → count_in_chain r [] ≤ max_skip_per_chain
  unfolding count_in_chain
  no_keys r = omega arith

  pub started-IsValid :
      (remote : PublicKey) (own : PrivateKey) (root : SecretKey) (chain : Key)
      → length root.expose_secret ≡ 32
      → length chain ≡ 32
      → IsValid (started remote own root chain)
  started-IsValid remote own root chain root_len len = record {
    root_len = root_len;
    sends = record { key_len = len; within = omega arith };
    receives = tt;
    previous_within = omega arith;
    skips = tt;
    total = omega arith;
    per_chain = no_keys;
  }

  -- Starting as the initiator fails only with an invalid public key; a session that it starts is
  -- valid. The libraries' output lengths are assumed.
  pub initiator_with-IsValid :
      HasLengths P
      → (shared_key : SecretKey) (remote : PublicKey) (own : PrivateKey)
      → (initiator_with P shared_key remote own ≡ err (crypto invalid_public_key))
        ⊎ ((a : Session) × (initiator_with P shared_key remote own ≡ ok a) × IsValid a)
  initiator_with-IsValid L shared_key remote own =
      elim (initiator_with-cases L shared_key remote own) [
        | inl e ↦ inl e
        | inr (root, chain, e, root_len, len, run) ↦
            inr (
              started remote own root chain,
              run,
              started-IsValid remote own root chain root_len len,
            )
      ]

  pub responder-IsValid :
      (shared_key : SecretKey) (signed_prekey : PrivateKey)
      → length shared_key.expose_secret ≡ 32
      → IsValid (responder P shared_key signed_prekey)
  unfolding responder
  responder-IsValid shared_key signed_prekey h = record {
    root_len = h;
    sends = tt;
    receives = tt;
    previous_within = omega arith;
    skips = tt;
    total = omega arith;
    per_chain = no_keys;
  }

  -- The session that an initiator starts against a responder's signed prekey has the first turn
  -- with the responder's session, when both hold the same shared key: the initiator's chain is new
  -- and the responder will derive it. The libraries' lengths and the commutation of Diffie-Hellman
  -- are assumed.
  pub initiator_with-Turn :
      HasLengths P
      → DhCommutes P
      → (shared_key : SecretKey) (signed_prekey own : PrivateKey) (a : Session)
      → initiator_with P shared_key (public_key P signed_prekey) own ≡ ok a
      → (start : Key) × Turn P start 0 a (responder P shared_key signed_prekey)
  unfolding responder advance
  initiator_with-Turn L D shared_key signed_prekey own a e =
      elim (initiator_with-cases L shared_key (public_key P signed_prekey) own) [
        | inl refused ↦ absurd (cc)
        | inr (root, chain, derived, root_len, len, run) ↦
            let same : a ≡ started (public_key P signed_prekey) own root chain =
              ground (arith, e, run) in
            (
              chain,
              rw same (record {
                start_len = len;
                sends = refl;
                agreed = kdf_root_comm P D shared_key signed_prekey own ∙ derived;
                ready = record { fresh = refl; none_kept = tt; caught_up = tt };
              }),
            )
      ]
