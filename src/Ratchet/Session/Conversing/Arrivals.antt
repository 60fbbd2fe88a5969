-- ===== src/Ratchet/Session/Conversing/Arrivals.antt =====
-- The session of a receiver while frames of its chain arrive.
use quietwire.Base.{
  ℕ, suc, ◌+◌, ◌≤◌, ◌≡◌, Bool, List, [], ◌∷◌, arith, length, All, inl, inr, lt_of_get_elem?,
}
use quietwire.Bytes.{Bytes}
use quietwire.Crypto.{Primitives, HasLengths}
use quietwire.Crypto.X25519.{PublicKey}
use quietwire.Ratchet.{Key, SealedFrame, frame_len, max_skip_per_chain}
use quietwire.Ratchet.Header.{parse}
use quietwire.Ratchet.Session.{Session}
use quietwire.Ratchet.Session.Mirrors.{mark, Mirrors}
use quietwire.Ratchet.Session.AnyOrder.{receives}
use quietwire.Ratchet.Session.Bursts.{NextRatchet, AreFrames, AreFrames-cases, after_all}

module _ (P : Primitives) (start : Key) (ratchet : PublicKey) (previous : ℕ) where
  pub AreFrames-sealed :
      (n : ℕ) (ps : List Bytes) (frames : List SealedFrame)
      → AreFrames P start ratchet previous n ps frames
      → All (λ (f : SealedFrame). length f.frame ≡ frame_len) frames
      → All
          (λ (f : SealedFrame). (length f.frame ≡ frame_len) × ((parse f.frame).ratchet ≡ ratchet))
          frames
  AreFrames-sealed n [] [] v framed = tt
  AreFrames-sealed n [] (f ∷ frames) v framed = absurd v
  AreFrames-sealed n (p ∷ ps) [] v framed = absurd v
  AreFrames-sealed n (p ∷ ps) (f ∷ frames) v framed =
      ((framed.0, v.0.0.from), AreFrames-sealed (suc n) ps frames v.1 framed.1)

  module _ (L : HasLengths P) (base hi : ℕ) (fits : base + hi ≤ max_skip_per_chain) where
    -- Whatever arrives, the receiver goes on following the chain.
    pub after_all-Mirrors :
        (n : ℕ) (ps : List Bytes) (frames : List SealedFrame)
        → AreFrames P start ratchet previous n ps frames
        → n + length ps ≤ hi
        → (indices : List (ℕ × NextRatchet)) (next : ℕ) (taken : ℕ → Bool) (s : Session) → next ≤ hi
        → Mirrors P start ratchet base next taken s
        → (next' : ℕ) × (taken' : ℕ → Bool) × (next' ≤ hi)
          × Mirrors P start ratchet base next' taken' (after_all P frames indices s)
    unfolding after_all
    after_all-Mirrors n ps frames v within [] next taken s le m = (next, taken, le, m)
    after_all-Mirrors n ps frames v within ((i, next_ratchet) ∷ indices) next taken s le m =
        elim (AreFrames-cases P start ratchet previous n i ps frames v) [
          | inl (_, e') ↦
              rw (after_all, e') (after_all-Mirrors n ps frames v within indices next taken s le m)
          | inr (plaintext, sealed, e, e', f, _) ↦
              let inside = lt_of_get_elem? ps i e in
              elim (receives P start ratchet L base hi fits sealed next_ratchet next (n + i) taken s
                plaintext m le (omega arith) f) [
                  | inl (_, refused) ↦
                      rw (after_all, e', refused)
                        (after_all-Mirrors n ps frames v within indices next taken s le m)
                  | inr (_, (next', s', opened, le', m', _)) ↦
                      rw (after_all, e', opened)
                        (after_all-Mirrors n ps frames v within indices next' (mark (n + i) taken)
                          s' le' m')
                ]
        ]
