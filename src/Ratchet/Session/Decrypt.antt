-- ===== src/Ratchet/Session/Decrypt.antt =====
-- `Session::decrypt`: what it can do to a session.
use quietwire.Base.{
  ℕ, ◌≡◌, ◌≢◌, inl, inr, none, some, length, Option-cases, Bool-cases, true, false,
}
use quietwire.Base.{Result, panic}
use quietwire.Bytes.{Bytes}
use quietwire.Crypto
use quietwire.Crypto.{Primitives, HasLengths}
use quietwire.Crypto.X25519.{PrivateKey}
use quietwire.Ratchet.{Error, SealedFrame, frame_len}
use quietwire.Ratchet.Header.{parse}
use quietwire.Ratchet.Skipped.{position}
use quietwire.Ratchet.Session.{
  Session, is_remote, decrypt_with, decrypt_skipped, decrypt_in_receiving_chain,
  decrypt_after_ratchet_step,
}
use quietwire.Ratchet.Session.Invariant.{IsValid}
use quietwire.Ratchet.Session.Outcomes.{Refused, InChain, in_receiving_chain}
use quietwire.Ratchet.Session.SkippedOutcome.{FromSkipped, skipped_outcome}
use quietwire.Ratchet.Session.StepOutcome.{RatchetStep, step_outcome}

module _ (P : Primitives) where
  -- How `decrypt_with` ends, with the tests that led there.
  pub data Outcome (sealed : SealedFrame) (next_ratchet : Result Crypto.Error PrivateKey)
      (s : Session) (r : Result Error Bytes × Session) : Type 0 where
    refused : Refused s r → Outcome sealed next_ratchet s r
    from_skipped :
        (index : ℕ)
        → position s.skipped (parse sealed.frame) ≡ some index
        → FromSkipped P (parse sealed.frame) sealed s index r
        → Outcome sealed next_ratchet s r
    in_chain :
        position s.skipped (parse sealed.frame) ≡ none
        → is_remote s.remote_ratchet (parse sealed.frame).ratchet ≡ true
        → InChain P (parse sealed.frame) sealed s r
        → Outcome sealed next_ratchet s r
    stepped :
        position s.skipped (parse sealed.frame) ≡ none
        → is_remote s.remote_ratchet (parse sealed.frame).ratchet ≡ false
        → RatchetStep P (parse sealed.frame) sealed next_ratchet s r
        → Outcome sealed next_ratchet s r

  module _ (sealed : SealedFrame) (next_ratchet : Result Crypto.Error PrivateKey)
      (s : Session) where
    pub as_skipped :
        (index : ℕ)
        → position s.skipped (parse sealed.frame) ≡ some index
        → decrypt_with P sealed next_ratchet s ≡ decrypt_skipped P index sealed s
    unfolding decrypt_with
    as_skipped index e = rw (e, decrypt_with)

    pub as_in_chain :
        position s.skipped (parse sealed.frame) ≡ none
        → is_remote s.remote_ratchet (parse sealed.frame).ratchet ≡ true
        → decrypt_with P sealed next_ratchet s
          ≡ decrypt_in_receiving_chain P (parse sealed.frame) sealed s
    unfolding decrypt_with
    as_in_chain e t = rw (e, t, decrypt_with)

    pub as_step :
        position s.skipped (parse sealed.frame) ≡ none
        → is_remote s.remote_ratchet (parse sealed.frame).ratchet ≡ false
        → decrypt_with P sealed next_ratchet s
          ≡ decrypt_after_ratchet_step P (parse sealed.frame) sealed next_ratchet s
    unfolding decrypt_with
    as_step e t = rw (e, t, decrypt_with)

  module _ (L : HasLengths P) (sealed : SealedFrame) (framed : length sealed.frame ≡ frame_len)
      (next_ratchet : Result Crypto.Error PrivateKey) (drawn : next_ratchet ≢ panic) where
    pub decrypt_with-Outcome :
        (s : Session)
        → IsValid s
        → Outcome sealed next_ratchet s (decrypt_with P sealed next_ratchet s)
    decrypt_with-Outcome s v = elim (Option-cases (position s.skipped (parse sealed.frame))) [
      | inr (index, e) ↦
          rw (as_skipped sealed next_ratchet s index e)
            (elim (skipped_outcome P L (parse sealed.frame) sealed framed s index v e) [
              | inl r ↦ refused r
              | inr f ↦ from_skipped index e f
            ])
      | inl e ↦ elim (Bool-cases (is_remote s.remote_ratchet (parse sealed.frame).ratchet)) [
        | inl t ↦
            rw (as_in_chain sealed next_ratchet s e t)
              (elim (in_receiving_chain P L (parse sealed.frame) sealed framed s v) [
                | inl r ↦ refused r
                | inr f ↦ in_chain e t f
              ])
        | inr t ↦
            rw (as_step sealed next_ratchet s e t)
              (elim (step_outcome P L (parse sealed.frame) sealed framed next_ratchet drawn s v) [
                | inl r ↦ refused r
                | inr f ↦ stepped e t f
              ])
      ]
    ]
