-- ===== src/Ratchet/Session/StepOutcome.antt =====
-- The outcomes of a ratchet step.
use quietwire.Base.{suc, ◌≤◌, ◌<◌, ◌≡◌, ◌≢◌, ◌⊎◌, inl, inr, Option, some, arith, length}
use quietwire.Base.{Result, ok, panic}
use quietwire.Bytes.{Bytes}
use quietwire.Crypto
use quietwire.Crypto.{Primitives, HasLengths, authentication, invalid_public_key}
use quietwire.Crypto.Secret.{SecretKey}
use quietwire.Crypto.X25519.{PrivateKey}
use quietwire.Ratchet.{
  Key, Error, crypto, SealedFrame, frame_len, chain_limit, max_skip_per_chain, plaintext_len,
}
use quietwire.Ratchet.Header.{Header}
use quietwire.Ratchet.Chain.{Cursor, kdf_root}
use quietwire.Ratchet.Chain.Schedule.{advance, message_key_at, keys_from}
use quietwire.Ratchet.Chain.Keys.{length-message_key_at, length-advance}
use quietwire.Ratchet.Skipped.{extend}
use quietwire.Ratchet.Session.{
  Session, open_frame, decrypt_after_ratchet_step, extend_previous, next_or_zero,
}
use quietwire.Ratchet.Session.Steps.{
  chain_at, start_lem, into_chain_lem, kdf_root-cases, open_frame-cases,
}
use quietwire.Ratchet.Session.Invariant.{IsValid}
use quietwire.Ratchet.Session.Outcomes.{Refused}
use quietwire.Ratchet.Session.StepCalls.{
  FromPrevious, drawn-cases, skip_previous-cases, new-message_key-cases, first_taken,
}

module _ (P : Primitives) where
  -- A ratchet step that opened its frame.
  pub record RatchetStep (header : Header) (sealed : SealedFrame)
      (next_ratchet : Result Crypto.Error PrivateKey) (s : Session)
      (r : Result Error Bytes × Session) : Type 0 where
    pub previous : Option Cursor
    pub from_previous : FromPrevious P s.receiving header.previous_chain_len previous
    pub middle_root : SecretKey
    pub receiving_key : Key
    pub received_root :
        kdf_root P s.root_key s.own_ratchet header.ratchet ≡ ok (middle_root, receiving_key)
    pub own : PrivateKey
    pub drawn : next_ratchet ≡ ok own
    pub root_key : SecretKey
    pub sending_key : Key
    pub sent_root : kdf_root P middle_root own header.ratchet ≡ ok (root_key, sending_key)
    pub root_len : length root_key.expose_secret ≡ 32
    pub sending_len : length sending_key ≡ 32
    pub receiving_len : length receiving_key ≡ 32
    pub within : header.message_number < chain_limit
    pub near : header.message_number ≤ max_skip_per_chain
    pub plaintext : Bytes
    pub opened :
        open_frame P (message_key_at P receiving_key header.message_number) sealed ≡ ok plaintext
    pub size : length plaintext ≡ plaintext_len
    pub result : r ≡ (
      ok plaintext,
      record {
        root_key = root_key;
        own_ratchet = own;
        remote_ratchet = some header.ratchet;
        sending = some (chain_at sending_key 0);
        receiving = some (
            chain_at
              (advance P receiving_key (suc header.message_number))
              (suc header.message_number));
        previous_sending_len = next_or_zero s.sending;
        skipped =
            extend header.ratchet
              (keys_from P receiving_key 0 header.message_number)
              (extend_previous P previous s.remote_ratchet s.skipped);
      },
    )

  module _ (L : HasLengths P) (header : Header) (sealed : SealedFrame)
      (framed : length sealed.frame ≡ frame_len) where
    module _ (next_ratchet : Result Crypto.Error PrivateKey) (drawn : next_ratchet ≢ panic) where
      pub step_outcome :
          (s : Session)
          → IsValid s
          → let r = decrypt_after_ratchet_step P header sealed next_ratchet s in
            Refused s r ⊎ RatchetStep header sealed next_ratchet s r
      unfolding decrypt_after_ratchet_step
      step_outcome s v =
          elim (skip_previous-cases P s.receiving header.previous_chain_len v.receives) [
            | inl (x, e) ↦ inl (x, ground arith)
            | inr (previous, skipped, from_previous) ↦
                elim (kdf_root-cases P L s.root_key s.own_ratchet header.ratchet) [
                  | inl e ↦ inl (crypto invalid_public_key, ground arith)
                  | inr (middle_root, receiving_key, received, _, receiving_len) ↦
                      elim (drawn-cases next_ratchet drawn) [
                        | inl (x, e) ↦ inl (crypto x, ground arith)
                        | inr (own, drew) ↦
                            elim (kdf_root-cases P L middle_root own header.ratchet) [
                              | inl e ↦ inl (crypto invalid_public_key, ground arith)
                              | inr (root_key, sending_key, sent, root_len, sending_len) ↦
                                  elim (new-message_key-cases P receiving_key
                                    header.message_number) [
                                      | inl (x, e) ↦ inl (x, ground arith)
                                      | inr (within, near, derived) ↦
                                          elim (open_frame-cases P L
                                            (message_key_at P receiving_key header.message_number)
                                            sealed
                                            (length-message_key_at P L receiving_key
                                              header.message_number)
                                            framed) [
                                              | inl e ↦ inl (crypto authentication, ground arith)
                                              | inr (plaintext, opened, size) ↦ inr (record {
                                                previous = previous;
                                                from_previous = from_previous;
                                                middle_root = middle_root;
                                                receiving_key = receiving_key;
                                                received_root = received;
                                                own = own;
                                                drawn = drew;
                                                root_key = root_key;
                                                sending_key = sending_key;
                                                sent_root = sent;
                                                root_len = root_len;
                                                sending_len = sending_len;
                                                receiving_len = receiving_len;
                                                within = within;
                                                near = near;
                                                plaintext = plaintext;
                                                opened = opened;
                                                size = size;
                                                result = ground (
                                                  arith,
                                                  start_lem sending_key sending_len,
                                                  into_chain_lem
                                                      (first_taken P receiving_key
                                                        header.message_number)
                                                      (length-advance P L receiving_key
                                                        (suc header.message_number) receiving_len),
                                                );
                                              })
                                            ]
                                    ]
                            ]
                      ]
                ]
          ]
