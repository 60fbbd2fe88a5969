-- ===== src/Ratchet/Session/Bursts.antt =====
-- Many frames of one chain: what a party sends in a row, delivered to its peer in any order.
pub mod Sending
use quietwire.Base.{
  ℕ, zero, suc, ◌+◌, ◌≤◌, ◌≡◌, refl, ap, subst, ◌⊎◌, inl, inr, Bool, true, false, none, some, List,
  [], ◌∷◌, arith, length, get_elem?, lt_of_get_elem?,
}
use quietwire.Base.{Result, ok, err}
use quietwire.Bytes.{Bytes}
use quietwire.Crypto
use quietwire.Crypto.{Primitives, HasLengths, authentication}
use quietwire.Crypto.Aead.{Nonce}
use quietwire.Crypto.X25519.{PrivateKey, PublicKey}
use quietwire.Ratchet.{Key, Error, crypto, SealedFrame, max_skip_per_chain}
use quietwire.Ratchet.Header.{parse}
use quietwire.Ratchet.Session.{Session, M, pure, encrypt_with, decrypt_with, ◌>>=◌}
use quietwire.Ratchet.Session.Delivery.{IsFrame}
use quietwire.Ratchet.Session.Mirrors.{mark, Mirrors}
use quietwire.Ratchet.Session.AnyOrder.{receives}

-- What the generator would draw for a ratchet step.
abbrev pub NextRatchet : Type 0
NextRatchet = Result Crypto.Error PrivateKey

module _ (P : Primitives) where
  -- The frames of the plaintexts, sent one after the other.
  unfoldable pub encrypt_all : List (Nonce × Bytes) → M (List SealedFrame)
  encrypt_all [] = pure []
  encrypt_all ((nonce, plaintext) ∷ more) = encrypt_with P nonce plaintext >>= λ frame.
      encrypt_all more >>= λ frames. pure (frame ∷ frames)

  -- The answers to the frames with the given indices, as they arrive.
  unfoldable pub decrypt_all :
      List SealedFrame → List (ℕ × NextRatchet) → Session → List (Result Error Bytes)
  decrypt_all frames [] s = []
  decrypt_all frames ((i, next_ratchet) ∷ arrivals) s = elim (get_elem? frames i) [
    | none ↦ decrypt_all frames arrivals s
    | some sealed ↦
        (decrypt_with P sealed next_ratchet s).0
        ∷ decrypt_all frames arrivals (decrypt_with P sealed next_ratchet s).1
  ]

  -- The session after those arrivals.
  unfoldable pub after_all : List SealedFrame → List (ℕ × NextRatchet) → Session → Session
  after_all frames [] s = s
  after_all frames ((i, next_ratchet) ∷ arrivals) s = elim (get_elem? frames i) [
    | none ↦ after_all frames arrivals s
    | some sealed ↦ after_all frames arrivals (decrypt_with P sealed next_ratchet s).1
  ]

  -- The frames number `n` and on of a chain, after one of `previous` frames.
  abbrev pub AreFrames : Key → PublicKey → (previous n : ℕ) → List Bytes → List SealedFrame → Type 0
  AreFrames start ratchet previous n [] [] = Unit {0}
  AreFrames start ratchet previous n [] (sealed ∷ frames) = ⊥
  AreFrames start ratchet previous n (plaintext ∷ plaintexts) [] = ⊥
  AreFrames start ratchet previous n (plaintext ∷ plaintexts) (sealed ∷ frames) =
      (IsFrame P start ratchet n plaintext sealed
        × ((parse sealed.frame).previous_chain_len ≡ previous))
      × AreFrames start ratchet previous (suc n) plaintexts frames

-- The answers that are due: each plaintext at the first arrival of its frame, and a refusal after.
unfoldable pub due :
    (ℕ → Bool) → ℕ → List Bytes → List (ℕ × NextRatchet) → List (Result Error Bytes)
due taken n plaintexts [] = []
due taken n plaintexts ((i, next_ratchet) ∷ arrivals) = elim (get_elem? plaintexts i) [
  | none ↦ due taken n plaintexts arrivals
  | some plaintext ↦ elim (taken (n + i)) [
    | true ↦ err (crypto authentication) ∷ due taken n plaintexts arrivals
    | false ↦ ok plaintext ∷ due (mark (n + i) taken) n plaintexts arrivals
  ]
]

module _ (P : Primitives) (start : Key) (ratchet : PublicKey) (previous : ℕ) where
  pub AreFrames-cases :
      (n i : ℕ) (plaintexts : List Bytes) (frames : List SealedFrame)
      → AreFrames P start ratchet previous n plaintexts frames
      → ((get_elem? plaintexts i ≡ none) × (get_elem? frames i ≡ none))
        ⊎ ((plaintext : Bytes) × (sealed : SealedFrame) × (get_elem? plaintexts i ≡ some plaintext)
            × (get_elem? frames i ≡ some sealed)
            × IsFrame P start ratchet (n + i) plaintext sealed
            × ((parse sealed.frame).previous_chain_len ≡ previous))
  AreFrames-cases n i [] [] v = inl (refl, refl)
  AreFrames-cases n i [] (sealed ∷ frames) v = absurd v
  AreFrames-cases n i (plaintext ∷ plaintexts) [] v = absurd v
  AreFrames-cases n zero (plaintext ∷ plaintexts) (sealed ∷ frames) v =
      let sum : n ≡ n + 0 = omega arith in
      inr (
        plaintext,
        sealed,
        refl,
        refl,
        subst (λ k. IsFrame P start ratchet k plaintext sealed) sum v.0.0,
        v.0.1,
      )
  AreFrames-cases n (suc i) (plaintext ∷ plaintexts) (sealed ∷ frames) v =
      let sum : suc n + i ≡ n + suc i = omega arith in
      elim (AreFrames-cases (suc n) i plaintexts frames v.1) [
        | inl none_there ↦ inl none_there
        | inr (p, f, e, e', w, u) ↦
            inr (p, f, e, e', subst (λ k. IsFrame P start ratchet k p f) sum w, u)
      ]

  module _ (L : HasLengths P) (base hi : ℕ) (fits : base + hi ≤ max_skip_per_chain) where
    -- The answers to frames of the chain, in any order, are those that are due.
    pub decrypt_all-due :
        (n : ℕ) (plaintexts : List Bytes) (frames : List SealedFrame)
        → AreFrames P start ratchet previous n plaintexts frames
        → n + length plaintexts ≤ hi
        → (arrivals : List (ℕ × NextRatchet)) (next : ℕ) (taken : ℕ → Bool) (s : Session)
        → next ≤ hi
        → Mirrors P start ratchet base next taken s
        → decrypt_all P frames arrivals s ≡ due taken n plaintexts arrivals
    unfolding decrypt_all due
    decrypt_all-due n plaintexts frames v within [] next taken s le m = refl
    decrypt_all-due n plaintexts frames v within ((i, next_ratchet) ∷ arrivals) next taken s le m =
        elim (AreFrames-cases n i plaintexts frames v) [
          | inl (e, e') ↦
              rw (decrypt_all, due, e, e')
                (decrypt_all-due n plaintexts frames v within arrivals next taken s le m)
          | inr (plaintext, sealed, e, e', f, _) ↦
              let inside = lt_of_get_elem? plaintexts i e in
              elim (receives P start ratchet L base hi fits sealed next_ratchet next (n + i) taken s
                plaintext m le (omega arith) f) [
                  | inl (again, refused) ↦
                      rw (decrypt_all, due, e, e', again, refused)
                        (ap (λ t. err (crypto authentication) ∷ t)
                          (decrypt_all-due n plaintexts frames v within arrivals next taken s le m))
                  | inr (fresh, (next', s', opened, le', m', _)) ↦
                      rw (decrypt_all, due, e, e', fresh, opened)
                        (ap (λ t. ok plaintext ∷ t)
                          (decrypt_all-due n plaintexts frames v within arrivals next'
                            (mark (n + i) taken) s' le' m'))
                ]
        ]
