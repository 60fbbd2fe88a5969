-- ===== src/Ratchet/Session/SkippedOutcome.antt =====
-- The outcomes of reading with a skipped key.
use quietwire.Base.{ℕ, ◌≡◌, true, ◌⊎◌, inl, inr, some, arith, length, get_elem?, All-get_elem?}
use quietwire.Base.{Result, ok}
use quietwire.Bytes.{Bytes}
use quietwire.Crypto.{Primitives, HasLengths, authentication}
use quietwire.Ratchet.{Error, crypto, SealedFrame, frame_len, plaintext_len}
use quietwire.Ratchet.Header.{Header}
use quietwire.Ratchet.Skipped.{SkippedKey, position, remove}
use quietwire.Ratchet.Skipped.Position.{position-some, is_for}
use quietwire.Ratchet.Session.{Session, open_frame, decrypt_skipped}
use quietwire.Ratchet.Session.Steps.{open_frame-cases}
use quietwire.Ratchet.Session.Invariant.{IsSkipped, IsValid}
use quietwire.Ratchet.Session.Outcomes.{Refused}

module _ (P : Primitives) where
  -- The plaintext and the session of a frame read with a key that was kept for it.
  pub record FromSkipped (header : Header) (sealed : SealedFrame) (s : Session) (index : ℕ)
      (r : Result Error Bytes × Session) : Type 0 where
    pub kept : SkippedKey
    pub found : get_elem? s.skipped index ≡ some kept
    pub for_frame : is_for header kept ≡ true
    pub plaintext : Bytes
    pub opened : open_frame P kept.key sealed ≡ ok plaintext
    pub size : length plaintext ≡ plaintext_len
    pub result : r ≡ (ok plaintext, record s { skipped = remove s.skipped index })

  module _ (L : HasLengths P) (header : Header) (sealed : SealedFrame)
      (framed : length sealed.frame ≡ frame_len) where
    pub skipped_outcome :
        (s : Session) (index : ℕ)
        → IsValid s
        → position s.skipped header ≡ some index
        → let r = decrypt_skipped P index sealed s in
          Refused s r ⊎ FromSkipped header sealed s index r
    unfolding decrypt_skipped
    skipped_outcome s index v e =
        let (kept, found, for_frame, key) = position-some s.skipped header index e in
        elim (open_frame-cases P L kept.key sealed
          (All-get_elem? IsSkipped s.skipped index v.skips found).key_len framed) [
            | inl refused ↦ inl (crypto authentication, ground arith)
            | inr (plaintext, opened, size) ↦ inr (record {
              kept = kept;
              found = found;
              for_frame = for_frame;
              plaintext = plaintext;
              opened = opened;
              size = size;
              result = ground arith;
            })
          ]
