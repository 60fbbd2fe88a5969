-- ===== src/Fuzz/Dialogue/Opening.antt =====
-- How a conversation of the fuzz target starts.
use quietwire.Base.{◌≡◌, refl, sym, ap, ◌∙◌, subst, inl, inr, false, none, some, [], arith}
use quietwire.Base.{Result, ok, err, panic, ◌>>=◌}
use quietwire.Bytes.{Bytes}
use quietwire.Crypto.{Primitives, HasLengths}
use quietwire.Crypto.Secret.{SecretKey, Draw, fill, random, build_in_place, from_slice}
use quietwire.Crypto.X25519
use quietwire.Crypto.X25519.{PrivateKey, public_key}
use quietwire.Ratchet.{Key, Error}
use quietwire.Ratchet.Session.{Session, initiator, initiator_with, responder}
use quietwire.Ratchet.Session.Start.{
  started-IsValid, initiator_with-cases, responder-IsValid, started,
}
use quietwire.Ratchet.Session.Invariant.{IsValid}
use quietwire.Fuzz.{expect, start, shared_key}
use quietwire.Fuzz.Dialogue.{Conversation, opening}
use quietwire.Fuzz.Dialogue.Journal.{blank, Follows}
use quietwire.Fuzz.Dialogue.Invariant.{IsConversation}

module _ (P : Primitives) (L : HasLengths P) where
  -- The conversation at its start.
  abbrev opened_with : PrivateKey → Session → Conversation
  opened_with prekey a = record {
    alice_session = a;
    bob_session = responder P (record { expose_secret = shared_key }) prekey;
    to_alice = [];
    to_bob = [];
    bob_has_received = false;
    sent = 0;
  }

  abbrev private_key : Bytes → PrivateKey
  private_key bytes = record { secret = record { expose_secret = bytes } }

  abbrev both : PrivateKey → Session → Result Error (Session × Session)
  both prekey a = ok (a, responder P (record { expose_secret = shared_key }) prekey)

  abbrev first_state : Bytes → Session × Session → Result Error Conversation
  first_state a sessions =
      ok (record (opened_with (private_key a) sessions.0) { bob_session = sessions.1 })

  opening_run :
      (a b : Bytes)
      → opening P (some a) (some b) ≡ (
          expect (
            initiator_with P
              (record { expose_secret = shared_key })
              (public_key P (private_key a))
              (private_key b))
          >>= λ alice. ok (opened_with (private_key a) alice))
  unfolding opening start X25519.generate random build_in_place fill from_slice initiator
  opening_run a b =
      elim (initiator_with P (record { expose_secret = shared_key }) (public_key P (private_key a))
          (private_key b))
        as (λ r.
          (expect r >>= both (private_key a) >>= first_state a)
          ≡ (expect r >>= λ alice. ok (opened_with (private_key a) alice))) [
            | ok alice ↦ refl
            | err e ↦ refl
            | panic ↦ refl
          ]

  opened_with-IsConversation :
      (prekey own : PrivateKey) (root : SecretKey) (chain : Key)
      → IsValid (started P (public_key P prekey) own root chain)
      → IsConversation (opened_with prekey (started P (public_key P prekey) own root chain))
  unfolding responder
  opened_with-IsConversation prekey own root chain v = record {
    alice_valid = v;
    bob_valid = responder-IsValid P (record { expose_secret = shared_key }) prekey refl;
    alice_sends = omega arith;
    bob_sends = record { blocked = refl; no_remote = refl; none_kept = refl };
    for_alice = tt;
    for_bob = tt;
  }

  opened_with-Follows : (prekey : PrivateKey) (a : Session) → Follows blank (opened_with prekey a)
  opened_with-Follows prekey a = record {
    counted = refl;
    alice_inbox = record { size = refl; within = λ i e. cc; each = λ i frame e. absurd (cc) };
    bob_inbox = record { size = refl; within = λ i e. cc; each = λ i frame e. absurd (cc) };
    received = refl;
  }

  pub opening-IsConversation :
      (first second : Draw) (c : Conversation)
      → opening P first second ≡ ok c
      → IsConversation c × Follows blank c
  unfolding opening start X25519.generate random build_in_place fill from_slice initiator
  opening-IsConversation none second c e = cc
  opening-IsConversation (some a) none c e = cc
  opening-IsConversation (some a) (some b) c e =
      let key : SecretKey = record { expose_secret = shared_key } in
      let e' = sym (opening_run a b) ∙ e in
      elim (initiator_with-cases P L key (public_key P (private_key a)) (private_key b)) [
        | inl refused ↦
            let r =
              ap
                (λ (r : Result Error Session).
                  expect {F = Error} r >>= λ alice. ok (opened_with (private_key a) alice))
                refused in
            absurd (cc)
        | inr (root, chain, derived, root_len, len, run_) ↦
            let alice_session =
              started P (public_key P (private_key a)) (private_key b) root chain in
            let r =
              ap
                (λ (r : Result Error Session).
                  expect {F = Error} r >>= λ alice. ok (opened_with (private_key a) alice))
                run_ in
            let same : opened_with (private_key a) alice_session ≡ c = cc in
            subst (λ t. IsConversation t × Follows blank t) same
              (
                opened_with-IsConversation (private_key a) (private_key b) root chain (
                    started-IsValid P (public_key P (private_key a)) (private_key b) root chain
                      root_len len),
                opened_with-Follows (private_key a) alice_session,
              )
      ]
