-- ===== src/Ratchet/Session/Retains.antt =====
-- A chain of which a session keeps the keys that have not been used, whatever chain it receives now.
use quietwire.Base.{
  ℕ, ◌<◌, ◌≡◌, refl, ap, ◌∙◌, subst, inl, inr, Bool, true, false, List, [], ◌∷◌, map, arith, All,
  Option-cases, if◌then◌else◌,
}
use quietwire.Base.{Result, ok}
use quietwire.Bytes.{Bytes, beq→eq}
use quietwire.Crypto
use quietwire.Crypto.{Primitives, HasLengths}
use quietwire.Crypto.X25519.{PrivateKey, PublicKey}
use quietwire.Ratchet.{Key, SealedFrame}
use quietwire.Ratchet.Header.{Header, parse}
use quietwire.Ratchet.Skipped.{SkippedKey, same_ratchet, with_ratchet, position, remove}
use quietwire.Ratchet.Skipped.Bounds.{remove-All}
use quietwire.Ratchet.Skipped.Position.{is_for, position-some}
use quietwire.Ratchet.Skipped.Matches.{matches, matches-append, matches-position, matches-remove}
use quietwire.Ratchet.Session.{Session, decrypt_with}
use quietwire.Ratchet.Session.Decrypt.{as_skipped}
use quietwire.Ratchet.Session.Delivery.{IsScheduled, IsFrame, kept_run}
use quietwire.Ratchet.Session.Mirrors.{mark, pending, KeptAfter, pending-remove}

module _ (r : PublicKey) (h : Header) (other : same_ratchet r h.ratchet ≡ false) where
  matches-others : (keys : List (ℕ × Key)) → matches h (map (with_ratchet r) keys) ≡ 0
  unfolding matches
  matches-others [] = refl
  matches-others (e ∷ keys) = ground (arith, other, matches-others keys)

  not_for : (k : SkippedKey) → same_ratchet k.ratchet r ≡ true → is_for h k ≡ false
  not_for k own =
      let same = beq→eq k.ratchet.as_bytes r.as_bytes own in
      let elsewhere : same_ratchet k.ratchet h.ratchet ≡ false = rw same other in ground arith

  -- What happens to the keys of one chain changes nothing for the frames of another.
  pub matches-KeptAfter :
      (ks ks' : List SkippedKey) → KeptAfter r ks ks' → matches h ks' ≡ matches h ks
  matches-KeptAfter ks ks' (inl (index, k, found, own, e)) =
      let miss = not_for k own in
      let none_used : ◌≡◌ {A = ℕ} (if is_for h k then 1 else 0) 0 = ground arith in
      omega (arith, none_used, ap (matches h) e, matches-remove h ks index found)
  matches-KeptAfter ks ks' (inr (keys, e)) =
      let none_there = matches-others keys in
      omega (arith, ap (matches h) e, matches-append h ks (map (with_ratchet r) keys), none_there)

module _ (P : Primitives) (start : Key) (ratchet : PublicKey) where
  -- The session keeps a key for each number below `until` that is not taken, no key twice, and no
  -- other key of the chain.
  pub record Retains (until : ℕ) (taken : ℕ → Bool) (s : Session) : Type 0 where
    pub kept : All (IsScheduled P start ratchet) s.skipped
    pub waits :
        (h : Header)
        → h.ratchet ≡ ratchet
        → matches h s.skipped ≡ pending taken until h.message_number

  -- A frame with a kept key opens with it, and is taken.
  pub record Used (until n : ℕ) (taken : ℕ → Bool) (sealed : SealedFrame)
      (next_ratchet : Result Crypto.Error PrivateKey) (plaintext : Bytes) (s : Session)
      : Type 0 where
    pub index : ℕ
    pub opened :
        decrypt_with P sealed next_ratchet s
        ≡ (ok plaintext, record s { skipped = remove s.skipped index })
    pub retains : Retains until (mark n taken) (record s { skipped = remove s.skipped index })
    pub after : KeptAfter ratchet s.skipped (remove s.skipped index)

  pub Retains-Used :
      HasLengths P
      → (sealed : SealedFrame) (next_ratchet : Result Crypto.Error PrivateKey) (until n : ℕ)
        (taken : ℕ → Bool) (s : Session) (plaintext : Bytes)
      → Retains until taken s
      → n < until
      → taken n ≡ false
      → IsFrame P start ratchet n plaintext sealed
      → Used until n taken sealed next_ratchet plaintext s
  Retains-Used L sealed next_ratchet until n taken s plaintext v lt fresh f =
      let h = parse sealed.frame in
      let one_waits : matches h s.skipped ≡ 1 =
        v.waits h f.from ∙ ap (pending taken until) f.number ∙ ground arith in
      elim (Option-cases (position s.skipped h)) [
        | inl e ↦ let none_waits = matches-position s.skipped h e in absurd (omega arith)
        | inr (index, e) ↦
            let (k, found, hit, key) = position-some s.skipped h index e in
            let own : same_ratchet k.ratchet h.ratchet ≡ true = ground arith in
            record {
              index = index;
              opened =
                  as_skipped P sealed next_ratchet s index e
                  ∙ kept_run P L start ratchet sealed next_ratchet n index s plaintext v.kept f e;
              retains = record {
                kept = remove-All (IsScheduled P start ratchet) s.skipped index v.kept;
                waits = λ h' e'.
                    pending-remove P start ratchet s.skipped until n index taken k h h' lt fresh
                      f.from f.number found hit e' (v.waits h' e');
              };
              after =
                  inl (
                    index,
                    k,
                    found,
                    subst (λ r. same_ratchet k.ratchet r ≡ true) f.from own,
                    refl,
                  );
            }
      ]
