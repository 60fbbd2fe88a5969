-- ===== src/Fuzz/Dialogue/Tampers.antt =====
-- Tampered frames in a conversation of the fuzz target.
use quietwire.Base.{
  ℕ, ◌-◌, ◌%◌, ◌<◌, ◌≡◌, ◌≢◌, refl, ap, ◌∙◌, inl, inr, some, arith, length, length-update, update,
  get_elem?, inside, Bool-cases, All-get_elem?, ◌==◌, ltb,
}
use quietwire.Base.{◌⊎◌, Result, ok, err, panic}
use quietwire.Bytes.{Bytes}
use quietwire.Crypto.{Primitives, HasLengths}
use quietwire.Crypto.Aead
use quietwire.Crypto.Secret.{Draw}
use quietwire.Ratchet.{Error, SealedFrame, frame_len}
use quietwire.Ratchet.Session.{Session, decrypt}
use quietwire.Fuzz.Dialogue.{
  InFlight, Conversation, Party, session, inbox, index, tampered, xor_at, sealed_len, tamper_with,
}
use quietwire.Fuzz.Dialogue.Invariant.{IsFlying, IsConversation, decrypt-Opened}
use quietwire.Fuzz.Dialogue.Receives.{session-IsValid, inbox-IsFlying, set_session-session}
use Prim.Native.Nat.{bit_xor}

xor_at_total :
    (at xor : ℕ) (bytes : Bytes)
    → at < length bytes
    → (bytes' : Bytes) × (xor_at at xor bytes ≡ ok bytes') × (length bytes' ≡ length bytes)
unfolding xor_at
xor_at_total at xor bytes lt =
    let (b, here) = inside bytes at lt in
    (
      update bytes at (bit_xor b xor),
      rw (here, xor_at) refl,
      length-update bytes at (bit_xor b xor),
    )

-- Every byte of a sealed frame can be tampered with, and the frame keeps its length.
tampered_total :
    (frame : InFlight) (byte xor : ℕ)
    → IsFlying frame
    → byte < sealed_len
    → (sealed : SealedFrame) × (tampered frame.sealed byte xor ≡ ok sealed)
      × (length sealed.frame ≡ frame_len)
unfolding tampered
tampered_total frame byte xor f lt = elim (Bool-cases (ltb byte Aead.nonce_len)) [
  | inl in_nonce ↦
      let (bytes, e, size) =
        xor_at_total byte xor frame.sealed.nonce.as_bytes (ground (arith, f.nonce)) in
      (
        record { nonce = record { as_bytes = bytes }; frame = frame.sealed.frame },
        rw (in_nonce, tampered) (rw e refl),
        f.framed,
      )
  | inr in_frame ↦
      let (bytes, e, size) =
        xor_at_total (byte - Aead.nonce_len) xor frame.sealed.frame (ground (arith, f.framed)) in
      (
        record { nonce = frame.sealed.nonce; frame = bytes },
        rw (in_frame, tampered) (rw e refl),
        size ∙ f.framed,
      )
]

-- A copy of a frame that was tampered with.
pub record Tampered (to : Party) (pick at xor : ℕ) (draw : Draw) (c : Conversation) : Type 0 where
  pub index : ℕ
  pub frame : InFlight
  pub sealed : SealedFrame
  pub picked : index ≡ pick % length (inbox to c)
  pub here : get_elem? (inbox to c) index ≡ some frame
  pub changes : xor ≢ 0
  pub made : tampered frame.sealed (at % sealed_len) xor ≡ ok sealed

module _ (P : Primitives) (L : HasLengths P) where
  -- How a tampering ends: nothing is tampered with; the copy is refused; or the assertion failed on a
  -- copy that opened.
  pub data Tampering (to : Party) (pick at xor : ℕ) (draw : Draw) (c : Conversation)
      (r : Result Error Conversation) : Type 0 where
    untouched : (length (inbox to c) ≡ 0) ⊎ (xor ≡ 0) → r ≡ ok c → Tampering to pick at xor draw c r
    refused :
        (t : Tampered to pick at xor draw c) (e : Error)
        → decrypt P t.sealed draw (session to c) ≡ (err e, session to c)
        → r ≡ ok c
        → Tampering to pick at xor draw c r
    forged :
        (t : Tampered to pick at xor draw c) (plaintext : Bytes)
        → (decrypt P t.sealed draw (session to c)).0 ≡ ok plaintext
        → r ≡ panic
        → Tampering to pick at xor draw c r

  -- Every tampering in a conversation of the target ends in one of these ways.
  pub tamper_with-Tampering :
      (to : Party) (pick at xor : ℕ) (draw : Draw) (c : Conversation)
      → IsConversation c
      → Tampering to pick at xor draw c (tamper_with P to pick at xor draw c)
  unfolding tamper_with index
  tamper_with-Tampering to pick at xor draw c h = elim (Bool-cases (ltb 0 (length (inbox to c)))) [
    | inr empty ↦ rw (empty, tamper_with) (untouched (inl (ground arith)) refl)
    | inl some_frames ↦ elim (Bool-cases (xor == 0)) [
      | inl same ↦ rw (some_frames, tamper_with) (rw same (untouched (inr (ground arith)) refl))
      | inr changed ↦
          let i = pick % length (inbox to c) in
          let (frame, here) = inside (inbox to c) i (grind arith) in
          let f = All-get_elem? IsFlying (inbox to c) i (inbox-IsFlying to c h) here in
          let (sealed, e, framed) = tampered_total frame (at % sealed_len) xor f (omega arith) in
          let copy : Tampered to pick at xor draw c = record {
            index = i;
            frame = frame;
            sealed = sealed;
            picked = refl;
            here = here;
            changes = ground arith;
            made = e;
          } in
          rw (some_frames, tamper_with)
            (rw (changed, here, e)
              (elim (decrypt-Opened P L sealed draw (session to c) framed
                (session-IsValid to c h)) [
                  | inl (x, no_change) ↦
                      rw (no_change, set_session-session to c) (refused copy x no_change refl)
                  | inr (plaintext, s, result, o) ↦
                      let answer = ap (λ (t : Result Error Bytes × Session). t.0) result in
                      rw result (forged copy plaintext answer refl)
                ]))
    ]
  ]
