-- ===== src/Ratchet/Session/Keeping.antt =====
-- What the frames of the chain that a session follows leave of it.
use quietwire.Base.{
  ℕ, ◌≡◌, ◌≢◌, refl, sym, ap, ◌∙◌, subst, Option, some, List, [], ◌∷◌, map, length, get_elem?, All,
  All-get_elem?, Option-cases, true, inl, inr,
}
use quietwire.Base.{Result, ok, panic}
use quietwire.Bytes.{Bytes, beq_refl}
use quietwire.Crypto
use quietwire.Crypto.{Primitives, HasLengths, OpensSealed}
use quietwire.Crypto.X25519.{PrivateKey, PublicKey}
use quietwire.Ratchet.{Key, Error, SealedFrame, frame_len}
use quietwire.Ratchet.Chain.{Chain}
use quietwire.Ratchet.Header.{parse}
use quietwire.Ratchet.Skipped.{SkippedKey, with_ratchet, remove}
use quietwire.Ratchet.Skipped.Bounds.{extend-All, remove-All}
use quietwire.Ratchet.Session.{Session, is_remote, decrypt_with}
use quietwire.Ratchet.Session.Invariant.{IsValid}
use quietwire.Ratchet.Session.Decrypt.{
  refused, from_skipped, in_chain, stepped, Outcome, decrypt_with-Outcome,
}
use quietwire.Ratchet.Session.Atomicity.{decrypt_with-Atomic}
use quietwire.Ratchet.Session.Reachable.{Atomic-IsValid}
use quietwire.Ratchet.Session.Bursts.{after_all}

-- Every kept key is of a chain that is known.
abbrev pub KnowsChains : (PublicKey → Type 0) → List SkippedKey → Type 0
KnowsChains Known = All (λ (k : SkippedKey). Known k.ratchet)

module _ (Known : PublicKey → Type 0) where
  -- The session is valid, keeps only keys of known chains, and has the keys and the sending chain
  -- that it had.
  pub record Keeps (s s' : Session) : Type 0 where
    pub valid : IsValid s'
    pub root_key : s'.root_key ≡ s.root_key
    pub owns : s'.own_ratchet ≡ s.own_ratchet
    pub remote : s'.remote_ratchet ≡ s.remote_ratchet
    pub sending : s'.sending ≡ s.sending
    pub previous_len : s'.previous_sending_len ≡ s.previous_sending_len
    pub chains : KnowsChains Known s'.skipped

  Keeps-trans : (s s' s'' : Session) → Keeps s s' → Keeps s' s'' → Keeps s s''
  Keeps-trans s s' s'' h k = record {
    valid = k.valid;
    root_key = k.root_key ∙ h.root_key;
    owns = k.owns ∙ h.owns;
    remote = k.remote ∙ h.remote;
    sending = k.sending ∙ h.sending;
    previous_len = k.previous_len ∙ h.previous_len;
    chains = k.chains;
  }

  Keeps-refl : (s : Session) → IsValid s → KnowsChains Known s.skipped → Keeps s s
  Keeps-refl s v ks = record {
    valid = v;
    root_key = refl;
    owns = refl;
    remote = refl;
    sending = refl;
    previous_len = refl;
    chains = ks;
  }

  Keeps-record :
      (s : Session) (r : Result Error Bytes × Session) (skipped : List SkippedKey)
      (receiving : Option Chain) (plaintext : Bytes)
      → IsValid r.1
      → KnowsChains Known skipped
      → r ≡ (ok plaintext, record s { skipped = skipped; receiving = receiving })
      → Keeps s r.1
  Keeps-record s r skipped receiving plaintext v ks e = record {
    valid = v;
    root_key = ap (λ (t : Result Error Bytes × Session). t.1.root_key) e;
    owns = ap (λ (t : Result Error Bytes × Session). t.1.own_ratchet) e;
    remote = ap (λ (t : Result Error Bytes × Session). t.1.remote_ratchet) e;
    sending = ap (λ (t : Result Error Bytes × Session). t.1.sending) e;
    previous_len = ap (λ (t : Result Error Bytes × Session). t.1.previous_sending_len) e;
    chains = subst (λ (t : Result Error Bytes × Session). KnowsChains Known t.1.skipped) (sym e) ks;
  }

  pub with_ratchet-KnowsChains :
      (r : PublicKey) (keys : List (ℕ × Key))
      → Known r
      → KnowsChains Known (map (with_ratchet r) keys)
  with_ratchet-KnowsChains r [] h = tt
  with_ratchet-KnowsChains r (e ∷ keys) h = (h, with_ratchet-KnowsChains r keys h)

  module _ (P : Primitives) (L : HasLengths P) (O : OpensSealed P) (ratchet : PublicKey)
      (known : Known ratchet) (own : PrivateKey) where
    drawn : ◌≢◌ {A = Result Crypto.Error PrivateKey} (ok own) panic
    drawn e = cc

    Outcome-Keeps :
        (sealed : SealedFrame) (s : Session) (r : Result Error Bytes × Session)
        → IsValid s
        → IsValid r.1
        → KnowsChains Known s.skipped
        → s.remote_ratchet ≡ some ratchet
        → (parse sealed.frame).ratchet ≡ ratchet
        → Outcome P sealed (ok own) s r
        → Keeps s r.1
    Outcome-Keeps sealed s r v v' ks follows from (refused (e, same)) = rw same (Keeps-refl s v ks)
    Outcome-Keeps sealed s r v v' ks follows from (from_skipped index e f) =
        Keeps-record s r (remove s.skipped index) s.receiving f.plaintext v'
          (remove-All (λ k. Known k.ratchet) s.skipped index ks) f.result
    Outcome-Keeps sealed s r v v' ks follows from (in_chain e t f) =
        Keeps-record s r _ _ f.plaintext v'
          (extend-All (λ k. Known k.ratchet) (parse sealed.frame).ratchet _ s.skipped ks
            (with_ratchet-KnowsChains (parse sealed.frame).ratchet _
              (subst Known (sym from) known)))
          f.result
    Outcome-Keeps sealed s r v v' ks follows from (stepped e t f) =
        let current : is_remote s.remote_ratchet (parse sealed.frame).ratchet ≡ true =
          rw (follows, from) (beq_refl ratchet.as_bytes) in
        absurd (cc)

    pub decrypt_with-Keeps :
        (sealed : SealedFrame) (s : Session)
        → length sealed.frame ≡ frame_len
        → (parse sealed.frame).ratchet ≡ ratchet
        → IsValid s
        → KnowsChains Known s.skipped
        → s.remote_ratchet ≡ some ratchet
        → Keeps s (decrypt_with P sealed (ok own) s).1
    decrypt_with-Keeps sealed s framed from v ks follows =
        Outcome-Keeps sealed s (decrypt_with P sealed (ok own) s) v
          (Atomic-IsValid P L O s _ v (decrypt_with-Atomic P L sealed framed (ok own) drawn s v)) ks
          follows from (decrypt_with-Outcome P L sealed framed (ok own) drawn s v)

    -- The frames with the given indices, as they arrive; what the generator would draw is fixed.
    pub after_all-Keeps :
        (frames : List SealedFrame) (arrivals : List ℕ) (s : Session)
        → All
            (λ (f : SealedFrame).
              (length f.frame ≡ frame_len) × ((parse f.frame).ratchet ≡ ratchet))
            frames
        → IsValid s
        → KnowsChains Known s.skipped
        → s.remote_ratchet ≡ some ratchet
        → Keeps s (after_all P frames (map (λ i. (i, ok own)) arrivals) s)
    unfolding after_all
    after_all-Keeps frames [] s are v ks follows = Keeps-refl s v ks
    after_all-Keeps frames (i ∷ arrivals) s are v ks follows =
        elim (Option-cases (get_elem? frames i)) [
          | inl e ↦ rw (after_all, e) (after_all-Keeps frames arrivals s are v ks follows)
          | inr (sealed, e) ↦
              let (framed, from) =
                All-get_elem?
                  (λ (f : SealedFrame).
                    (length f.frame ≡ frame_len) × ((parse f.frame).ratchet ≡ ratchet))
                  frames i are e in
              let k = decrypt_with-Keeps sealed s framed from v ks follows in
              rw (after_all, e)
                (Keeps-trans s (decrypt_with P sealed (ok own) s).1 _ k (
                  after_all-Keeps frames arrivals (decrypt_with P sealed (ok own) s).1 are k.valid
                    k.chains (k.remote ∙ follows)))
        ]
