-- ===== src/Ratchet/Session/Reordering.antt =====
-- A party's turn: all that it sends on its new chain, whatever order the frames arrive in.
use quietwire.Base.{
  ℕ, suc, ◌+◌, ◌≤◌, ◌<◌, ◌≡◌, refl, ap, inl, inr, some, List, ◌∷◌, map, arith, length, All, inside,
  length-map,
}
use quietwire.Base.{ok}
use quietwire.Bytes.{Bytes}
use quietwire.Crypto.{Primitives, HasLengths, OpensSealed}
use quietwire.Crypto.Secret.{SecretKey}
use quietwire.Crypto.Aead.{Nonce}
use quietwire.Crypto.X25519.{PrivateKey, public_key}
use quietwire.Ratchet.{Key, SealedFrame, max_skip_per_chain, plaintext_len}
use quietwire.Ratchet.Chain.{kdf_root}
use quietwire.Ratchet.Chain.Schedule.{advance}
use quietwire.Ratchet.Session.{Session}
use quietwire.Ratchet.Session.Steps.{chain_at, kdf_root-length}
use quietwire.Ratchet.Session.Invariant.{IsValid}
use quietwire.Ratchet.Session.Exchange.{Turn}
use quietwire.Ratchet.Session.Exchange.Cross.{cross}
use quietwire.Ratchet.Session.Mirrors.{mark}
use quietwire.Ratchet.Session.Crossing.{none_taken, Crossed-Mirrors}
use quietwire.Ratchet.Session.Bursts.{
  NextRatchet, encrypt_all, decrypt_all, due, AreFrames, AreFrames-cases, decrypt_all-due,
}
use quietwire.Ratchet.Session.Bursts.Sending.{encrypt_all-AreFrames}

module _ (P : Primitives) (L : HasLengths P) where
  -- The first frame that arrives crosses the ratchet step; the others meet a receiver that follows.
  pub arrives :
      (start : Key) (n : ℕ) (a b : Session) (plaintexts : List Bytes) (frames : List SealedFrame)
      (i : ℕ) (more : List (ℕ × NextRatchet)) (own : PrivateKey) (root : SecretKey)
      (sending_key : Key)
      → Turn P start n a b
      → AreFrames P start (public_key P a.own_ratchet) a.previous_sending_len n plaintexts frames
      → i < length plaintexts
      → length b.skipped + a.previous_sending_len + (n + length plaintexts) ≤ max_skip_per_chain
      → kdf_root P a.root_key own (public_key P a.own_ratchet) ≡ ok (root, sending_key)
      → decrypt_all P frames ((i, ok own) ∷ more) b
        ≡ due none_taken n plaintexts ((i, ok own) ∷ more)
  unfolding decrypt_all due
  arrives start n a b plaintexts frames i more own root sending_key t v lt fits second =
      elim (AreFrames-cases P start (public_key P a.own_ratchet) a.previous_sending_len n i
        plaintexts frames v) [
          | inl (missing, _) ↦ let (p, here) = inside plaintexts i lt in absurd (cc)
          | inr (plaintext, sealed, e, e', f, until) ↦
              let len =
                kdf_root-length P L a.root_key own (public_key P a.own_ratchet) root sending_key
                  second in
              let c =
                cross P L start (n + i) at_frame b own sealed plaintext root sending_key
                  (omega arith) turn f until len.1 second in
              let m =
                Crossed-Mirrors P L start (n + i) at_frame b own sealed plaintext root sending_key
                  (n + length plaintexts) fits (omega arith) turn c in
              rw (decrypt_all, due, e, e', c.opens)
                (ap (λ answers. ok plaintext ∷ answers)
                  (decrypt_all-due P start (public_key P a.own_ratchet) a.previous_sending_len L
                    (length b.skipped + a.previous_sending_len) (n + length plaintexts) fits n
                    plaintexts frames v (omega arith) more (suc (n + i)) (mark (n + i) none_taken)
                    c.after (omega arith) m))
        ]
    where
      at_frame : Session
      at_frame = record a { sending = some (chain_at (advance P start (n + i)) (n + i)) }

      turn : Turn P start (n + i) at_frame b
      turn = record { start_len = t.start_len; sends = refl; agreed = t.agreed; ready = t.ready }

  -- A party that has a new chain of which its peer has seen nothing sends any number of plaintexts in a
  -- row, and the frames arrive in any order, any of them lost or repeated. Then the peer, whose
  -- session takes a ratchet step at the first arrival, answers each frame with its plaintext when it
  -- first arrives and refuses it as not authentic whenever it comes again. Plaintexts have 396
  -- bytes; the frames of the chain, the previous chain and the keys that the peer already keeps are at
  -- most 1 000 together, and the ratchet key that the peer draws is not refused. The libraries'
  -- lengths and the cipher's round trip are assumed.
  pub reordered :
      OpensSealed P
      → (start : Key) (n : ℕ) (a b : Session) (messages : List (Nonce × Bytes)) (i : ℕ)
        (more : List (ℕ × NextRatchet)) (own : PrivateKey) (root : SecretKey) (sending_key : Key)
      → IsValid a
      → All (λ (m : Nonce × Bytes). length m.1 ≡ plaintext_len) messages
      → Turn P start n a b
      → i < length messages
      → length b.skipped + a.previous_sending_len + (n + length messages) ≤ max_skip_per_chain
      → kdf_root P a.root_key own (public_key P a.own_ratchet) ≡ ok (root, sending_key)
      → (frames : List SealedFrame) × (a' : Session) × (encrypt_all P messages a ≡ (ok frames, a'))
        × (decrypt_all P frames ((i, ok own) ∷ more) b
            ≡ due none_taken n (map (λ (m : Nonce × Bytes). m.1) messages) ((i, ok own) ∷ more))
  reordered O start n a b messages i more own root sending_key v sizes t lt fits second =
      let (frames, a', run, are, _, _) =
        encrypt_all-AreFrames P L O messages start n a v t.sends (omega arith) sizes in
      let size = length-map messages (λ (m : Nonce × Bytes). m.1) in
      (
        frames,
        a',
        run,
        arrives start n a b (map (λ (m : Nonce × Bytes). m.1) messages) frames i more own root
            sending_key t are (omega (arith, size)) (omega (arith, size)) second,
      )
