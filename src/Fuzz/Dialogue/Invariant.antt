-- ===== src/Fuzz/Dialogue/Invariant.antt =====
-- What every conversation of the fuzz target keeps, and what a call of the ratchet does to it.
use quietwire.Base.{
  ℕ, suc, ◌≤◌, ◌<◌, ◌≡◌, ◌≢◌, sym, ap, subst, ◌⊎◌, inl, inr, Bool, true, false, Option, none, some,
  [], arith, length, All,
}
use quietwire.Base.{Result, ok, panic}
use quietwire.Bytes.{Bytes}
use quietwire.Crypto
use quietwire.Crypto.{Primitives, HasLengths, OpensSealed}
use quietwire.Crypto.Secret.{Draw, fill, random, build_in_place}
use quietwire.Crypto.Aead
use quietwire.Crypto.Aead.{Nonce}
use quietwire.Crypto.X25519
use quietwire.Crypto.X25519.{PrivateKey}
use quietwire.Ratchet.{Error, SealedFrame, frame_len, plaintext_len, chain_limit}
use quietwire.Ratchet.Header.{parse}
use quietwire.Ratchet.Chain.{Chain}
use quietwire.Ratchet.Skipped.{position}
use quietwire.Ratchet.Session.{Session, is_remote, encrypt, decrypt, decrypt_with}
use quietwire.Ratchet.Session.Invariant.{IsValid}
use quietwire.Ratchet.Session.Outcomes.{Refused}
use quietwire.Ratchet.Session.Encrypt.{encrypt_with-cases, encrypt_with-IsValid, IsBlocked}
use quietwire.Ratchet.Session.Decrypt.{
  Outcome, refused, from_skipped, in_chain, stepped, decrypt_with-Outcome,
}
use quietwire.Ratchet.Session.Atomicity.{decrypt_with-Atomic}
use quietwire.Fuzz.Dialogue.{InFlight, Conversation}

-- A sending chain with at most `count` frames.
abbrev pub CanSend : Option Chain → ℕ → Type 0
CanSend none count = ⊥
CanSend (some chain) count = chain.next ≤ count

-- A responder that has received nothing.
pub record IsWaiting (s : Session) : Type 0 where
  pub blocked : s.sending ≡ none
  pub no_remote : s.remote_ratchet ≡ none
  pub none_kept : s.skipped ≡ []

abbrev pub HasReceived : Bool → Session → ℕ → Type 0
HasReceived true s count = CanSend s.sending count
HasReceived false s count = IsWaiting s

pub record IsFlying (frame : InFlight) : Type 0 where
  pub nonce : length frame.sealed.nonce.as_bytes ≡ Aead.nonce_len
  pub framed : length frame.sealed.frame ≡ frame_len

pub record IsConversation (c : Conversation) : Type 0 where
  pub alice_valid : IsValid c.alice_session
  pub bob_valid : IsValid c.bob_session
  pub alice_sends : CanSend c.alice_session.sending c.sent
  pub bob_sends : HasReceived c.bob_has_received c.bob_session c.sent
  pub for_alice : All IsFlying c.to_alice
  pub for_bob : All IsFlying c.to_bob

pub CanSend-mono : (chain : Option Chain) (m n : ℕ) → m ≤ n → CanSend chain m → CanSend chain n
CanSend-mono none m n le h = h
CanSend-mono (some chain) m n le h = omega arith

pub HasReceived-mono :
    (received : Bool) (s : Session) (m n : ℕ)
    → m ≤ n
    → HasReceived received s m
    → HasReceived received s n
HasReceived-mono true s m n le h = CanSend-mono s.sending m n le h
HasReceived-mono false s m n le h = h

module _ (P : Primitives) (L : HasLengths P) where
  -- A frame that opens leaves the sending chain as it is, or starts a new one; a responder that has
  -- received nothing always starts one.
  pub record Opened (s : Session) (plaintext : Bytes) (s' : Session) : Type 0 where
    pub valid : IsValid s'
    pub size : length plaintext ≡ plaintext_len
    pub sends : ((s'.sending ≡ s.sending) × (¬ IsWaiting s)) ⊎ CanSend s'.sending 0

  pub Opened-CanSend :
      (s : Session) (plaintext : Bytes) (s' : Session) (count : ℕ)
      → Opened s plaintext s'
      → CanSend s.sending count
      → CanSend s'.sending count
  Opened-CanSend s plaintext s' count o h = elim o.sends [
    | inl (same, _) ↦ subst (λ chain. CanSend chain count) (sym same) h
    | inr fresh ↦ CanSend-mono s'.sending 0 count (omega arith) fresh
  ]

  pub Opened-IsWaiting :
      (s : Session) (plaintext : Bytes) (s' : Session) (count : ℕ)
      → Opened s plaintext s'
      → IsWaiting s
      → CanSend s'.sending count
  Opened-IsWaiting s plaintext s' count o w = elim o.sends [
    | inl (_, other) ↦ absurd (other w)
    | inr fresh ↦ CanSend-mono s'.sending 0 count (omega arith) fresh
  ]

  drawn : (draw : Draw) → X25519.generate draw ≢ panic
  unfolding X25519.generate random build_in_place fill
  drawn none = cc
  drawn (some bytes) = cc

  module _ (sealed : SealedFrame) (next : Result Crypto.Error PrivateKey) (s : Session) where
    has_kept : (i : ℕ) → position s.skipped (parse sealed.frame) ≡ some i → ¬ IsWaiting s
    unfolding position
    has_kept i e w =
        let found = subst (λ ks. position ks (parse sealed.frame) ≡ some i) w.none_kept e in cc

    has_remote : is_remote s.remote_ratchet (parse sealed.frame).ratchet ≡ true → ¬ IsWaiting s
    has_remote t w =
        let found = subst (λ o. is_remote o (parse sealed.frame).ratchet ≡ true) w.no_remote t in cc

    outcome_sends :
        (r : Result Error Bytes × Session) (plaintext : Bytes)
        → r.0 ≡ ok plaintext
        → Outcome P sealed next s r
        → ((r.1.sending ≡ s.sending) × (¬ IsWaiting s)) ⊎ CanSend r.1.sending 0
    outcome_sends r plaintext opened (refused (e, f)) =
        let result = ap (λ (t : Result Error Bytes × Session). t.0) f in absurd (cc)
    outcome_sends r plaintext opened (from_skipped i e f) =
        inl (ap (λ (t : Result Error Bytes × Session). t.1.sending) f.result, has_kept i e)
    outcome_sends r plaintext opened (in_chain e t f) =
        inl (ap (λ (t : Result Error Bytes × Session). t.1.sending) f.result, has_remote t)
    outcome_sends r plaintext opened (stepped e t f) =
        let new_chain = ap (λ (t : Result Error Bytes × Session). t.1.sending) f.result in
        let none_sent : 0 ≤ 0 = omega arith in
        inr (subst (λ chain. CanSend chain 0) (sym new_chain) none_sent)

  pub decrypt-Opened :
      (sealed : SealedFrame) (draw : Draw) (s : Session)
      → length sealed.frame ≡ frame_len
      → IsValid s
      → Refused s (decrypt P sealed draw s)
        ⊎ ((plaintext : Bytes) × (s' : Session) × (decrypt P sealed draw s ≡ (ok plaintext, s'))
            × Opened s plaintext s')
  unfolding decrypt
  decrypt-Opened sealed draw s framed v =
      let next = X25519.generate draw in
      elim (decrypt_with-Atomic P L sealed framed next (drawn draw) s v) [
        | inl e ↦ inl e
        | inr (plaintext, opened, size, valid) ↦
            let s' = (decrypt_with P sealed next s).1 in
            inr (
              plaintext,
              s',
              ap (λ r. (r, s')) opened,
              record {
                valid = valid;
                size = size;
                sends =
                    outcome_sends sealed next s (decrypt_with P sealed next s) plaintext opened
                      (decrypt_with-Outcome P L sealed framed next (drawn draw) s v);
              },
            )
      ]

  -- A session with a sending chain that is not full encrypts.
  pub encrypt-CanSend :
      OpensSealed P
      → (bytes plaintext : Bytes) (s : Session) (count : ℕ) → IsValid s
      → length plaintext ≡ plaintext_len
      → CanSend s.sending count
      → count < chain_limit
      → (frame : Bytes) × (s' : Session) × (encrypt P (some bytes) plaintext s
          ≡ (ok (record { nonce = record { as_bytes = bytes }; frame = frame }), s'))
        × (length frame ≡ frame_len)
        × IsValid s'
        × CanSend s'.sending (suc count)
  unfolding encrypt Aead.random fill
  encrypt-CanSend O bytes plaintext s count v size h lt =
      let nonce : Nonce = record { as_bytes = bytes } in
      let valid = encrypt_with-IsValid P L O nonce plaintext s v size in
      elim (encrypt_with-cases P L O nonce plaintext s v size) [
        | inl (blocked, e) ↦ absurd (can_not s.sending blocked h)
        | inr (chain, e, open_chain, f) ↦
            let r = ap (λ (t : Result Error SealedFrame × Session). t.1) f.result in
            let most : chain.next ≤ count = subst (λ c. CanSend c count) e h in
            let next : suc chain.next ≤ suc count = omega arith in
            (f.frame, _, f.result, f.framed, subst IsValid r valid, next)
      ]
    where
      can_not : (chain : Option Chain) → IsBlocked chain → CanSend chain count → ⊥
      can_not none blocked h = h
      can_not (some chain) blocked h = omega arith
