-- ===== src/Ratchet/Session/Late.antt =====
-- Frames of the previous chain that arrive after the ratchet step, among those of the new one.
pub mod Retired
mod Tests
use quietwire.Base.{
  ℕ, ◌+◌, ◌≤◌, ◌<◌, ◌≡◌, refl, sym, ap, ◌∙◌, subst, inl, inr, Bool, true, false, some, List, [],
  ◌∷◌, arith, All, All-append, Bool-cases,
}
use quietwire.Base.{Result, ok, err}
use quietwire.Bytes.{Bytes, beq→eq, beq_refl}
use quietwire.Crypto.{Primitives, HasLengths, authentication}
use quietwire.Crypto.X25519.{PublicKey}
use quietwire.Ratchet.{Key, Error, crypto, SealedFrame, max_skip_per_chain}
use quietwire.Ratchet.Skipped.{SkippedKey, same_ratchet, remove}
use quietwire.Ratchet.Skipped.Bounds.{extend-All, remove-All, length-remove-le}
use quietwire.Ratchet.Session.{Session, decrypt_with}
use quietwire.Ratchet.Session.Delivery.{IsScheduled, IsFrame}
use quietwire.Ratchet.Session.Exchange.Cross.{other_keys}
use quietwire.Ratchet.Session.Mirrors.{mark, Mirrors, KeptAfter}
use quietwire.Ratchet.Session.Retains.{Retains, Used, Retains-Used, matches-KeptAfter}
use quietwire.Ratchet.Session.AnyOrder.{receives}
use quietwire.Ratchet.Session.Bursts.{NextRatchet}

pub same_ratchet-other : (a b : PublicKey) → same_ratchet a b ≡ false → same_ratchet b a ≡ false
same_ratchet-other a b e = elim (Bool-cases (same_ratchet b a)) [
  | inl same ↦
      let bytes = beq→eq b.as_bytes a.as_bytes same in
      let back : same_ratchet a b ≡ true =
        subst (λ bs. same_ratchet a (record { as_bytes = bs }) ≡ true) (sym bytes)
          (beq_refl a.as_bytes) in
      absurd (cc)
  | inr other ↦ other
]

module _ (P : Primitives) where
  -- The answers to the frames, as they arrive.
  unfoldable pub decrypt_each :
      List (SealedFrame × NextRatchet) → Session → List (Result Error Bytes)
  decrypt_each [] s = []
  decrypt_each ((sealed, next_ratchet) ∷ arrivals) s =
      (decrypt_with P sealed next_ratchet s).0
      ∷ decrypt_each arrivals (decrypt_with P sealed next_ratchet s).1

  module _ (old : Key) (remote : PublicKey) (until : ℕ) (start : Key) (ratchet : PublicKey)
      (hi : ℕ) where
    -- Arrivals with the answers that are due: a frame of the old chain below `until` that is not
    -- taken yet, a new frame of the chain below `hi`, or one of those again.
    pub data Arrivals
        : (ℕ → Bool)
          → (ℕ → Bool)
          → List (SealedFrame × NextRatchet)
          → List (Result Error Bytes)
          → Type 0 where
      no_more : {late taken : ℕ → Bool} → Arrivals late taken [] []
      comes_late :
          {late taken : ℕ → Bool} {arrivals : List (SealedFrame × NextRatchet)}
          {answers : List (Result Error Bytes)} (n : ℕ) (plaintext : Bytes) (sealed : SealedFrame)
          (next_ratchet : NextRatchet)
          → n < until
          → late n ≡ false
          → IsFrame P old remote n plaintext sealed
          → Arrivals (mark n late) taken arrivals answers
          → Arrivals late taken ((sealed, next_ratchet) ∷ arrivals) (ok plaintext ∷ answers)
      comes :
          {late taken : ℕ → Bool} {arrivals : List (SealedFrame × NextRatchet)}
          {answers : List (Result Error Bytes)} (n : ℕ) (plaintext : Bytes) (sealed : SealedFrame)
          (next_ratchet : NextRatchet)
          → n < hi
          → taken n ≡ false
          → IsFrame P start ratchet n plaintext sealed
          → Arrivals late (mark n taken) arrivals answers
          → Arrivals late taken ((sealed, next_ratchet) ∷ arrivals) (ok plaintext ∷ answers)
      comes_again :
          {late taken : ℕ → Bool} {arrivals : List (SealedFrame × NextRatchet)}
          {answers : List (Result Error Bytes)} (n : ℕ) (plaintext : Bytes) (sealed : SealedFrame)
          (next_ratchet : NextRatchet)
          → n < hi
          → taken n ≡ true
          → IsFrame P start ratchet n plaintext sealed
          → Arrivals late taken arrivals answers
          → Arrivals late taken
              ((sealed, next_ratchet) ∷ arrivals)
              (err (crypto authentication) ∷ answers)

    module _ (L : HasLengths P) (other : same_ratchet remote ratchet ≡ false) where
      -- What the new chain does to the kept keys leaves those of the old chain.
      Retains-KeptAfter :
          (late : ℕ → Bool) (s s' : Session)
          → KeptAfter ratchet s.skipped s'.skipped
          → Retains P old remote until late s
          → Retains P old remote until late s'
      Retains-KeptAfter late s s' k v = record {
        kept = still k;
        waits = λ h e.
            matches-KeptAfter ratchet h
              (subst (λ r. same_ratchet ratchet r ≡ false) (sym e)
                (same_ratchet-other remote ratchet other))
              s.skipped s'.skipped k
            ∙ v.waits h e;
      }
        where
          still : KeptAfter ratchet s.skipped s'.skipped → All (IsScheduled P old remote) s'.skipped
          still (inl (index, _, _, _, e)) =
              subst (All (IsScheduled P old remote)) (sym e)
                (remove-All (IsScheduled P old remote) s.skipped index v.kept)
          still (inr (keys, e)) = subst (All (IsScheduled P old remote)) (sym e) (
              All-append (IsScheduled P old remote) s.skipped _ v.kept
                (other_keys P L old remote ratchet keys (same_ratchet-other remote ratchet other)))

      -- The use of a key of the old chain leaves the new one.
      Mirrors-Used :
          (base next n : ℕ) (late taken : ℕ → Bool) (sealed : SealedFrame)
          (next_ratchet : NextRatchet) (plaintext : Bytes) (s : Session)
          (u : Used P old remote until n late sealed next_ratchet plaintext s)
          → Mirrors P start ratchet base next taken s
          → Mirrors P start ratchet base next taken
              (record s { skipped = remove s.skipped u.index })
      Mirrors-Used base next n late taken sealed next_ratchet plaintext s u m = record {
        follows = record {
          start_len = m.follows.start_len;
          remote = m.follows.remote;
          receiving = m.follows.receiving;
          kept = remove-All (IsScheduled P start ratchet) s.skipped u.index m.follows.kept;
        };
        seen = m.seen;
        waits = λ h e.
            matches-KeptAfter remote h (subst (λ r. same_ratchet remote r ≡ false) (sym e) other)
              s.skipped (remove s.skipped u.index) u.after
            ∙ m.waits h e;
        room = omega (arith, m.room, length-remove-le s.skipped u.index);
      }

      -- A session that receives the new chain and retains the old one gives the answers that are due.
      pub decrypt_each-Arrivals :
          (base : ℕ)
          → base + hi ≤ max_skip_per_chain
          → (arrivals : List (SealedFrame × NextRatchet)) (answers : List (Result Error Bytes))
            (late taken : ℕ → Bool) (next : ℕ) (s : Session)
          → next ≤ hi
          → Arrivals late taken arrivals answers
          → Retains P old remote until late s
          → Mirrors P start ratchet base next taken s
          → decrypt_each arrivals s ≡ answers
      unfolding decrypt_each
      decrypt_each-Arrivals base fits _ _ late taken next s le no_more v m = refl
      decrypt_each-Arrivals base fits _ _ late taken next s le
            (comes_late {arrivals = arrivals} {answers = answers} n plaintext sealed next_ratchet lt
              fresh f more)
            v m =
          let u =
            Retains-Used P old remote L sealed next_ratchet until n late s plaintext v lt fresh f in
          rw (decrypt_each, u.opened)
            (ap (λ t. ok plaintext ∷ t)
              (decrypt_each-Arrivals base fits arrivals answers (mark n late) taken next _ le more
                u.retains
                (Mirrors-Used base next n late taken sealed next_ratchet plaintext s u m)))
      decrypt_each-Arrivals base fits _ _ late taken next s le
            (comes {arrivals = arrivals} {answers = answers} n plaintext sealed next_ratchet lt
              fresh f more)
            v m =
          elim (receives P start ratchet L base hi fits sealed next_ratchet next n taken s plaintext
            m le lt f) [
              | inl (again, _) ↦ absurd (cc)
              | inr (_, (next', s', opened, le', m', k)) ↦
                  rw (decrypt_each, opened)
                    (ap (λ t. ok plaintext ∷ t)
                      (decrypt_each-Arrivals base fits arrivals answers late (mark n taken) next' s'
                        le' more (Retains-KeptAfter late s s' k v) m'))
            ]
      decrypt_each-Arrivals base fits _ _ late taken next s le
            (comes_again {arrivals = arrivals} {answers = answers} n plaintext sealed next_ratchet
              lt again f more)
            v m =
          elim (receives P start ratchet L base hi fits sealed next_ratchet next n taken s plaintext
            m le lt f) [
              | inl (_, refused) ↦
                  rw (decrypt_each, refused)
                    (ap (λ t. err (crypto authentication) ∷ t)
                      (decrypt_each-Arrivals base fits arrivals answers late taken next s le more v
                        m))
              | inr (fresh, _) ↦ absurd (cc)
            ]
