-- ===== src/Ratchet/Session/Conversing/Conversation.antt =====
-- Whole conversations.
use quietwire.Base.{ℕ, ◌+◌, ◌*◌, ◌≤◌, ◌≡◌, refl, ap₂, List, [], ◌∷◌, map, arith, length, inl, inr}
use quietwire.Base.{ok}
use quietwire.Crypto.{Primitives, HasLengths, OpensSealed, DhCommutes}
use quietwire.Crypto.Secret.{SecretKey}
use quietwire.Crypto.X25519.{PrivateKey, PublicKey, public_key}
use quietwire.Ratchet.{Key, max_skip_per_chain}
use quietwire.Ratchet.Session.{Session, initiator_with, responder}
use quietwire.Ratchet.Session.Start.{
  started, started-IsValid, responder-IsValid, initiator_with-cases, initiator_with-Turn,
}
use quietwire.Ratchet.Session.Conversing.{Round, due_in, frames_sent, converse, AreRounds, Live}
use quietwire.Ratchet.Session.Conversing.Rounds.{round_lem}

module _ (P : Primitives) (L : HasLengths P) (O : OpensSealed P) (D : DhCommutes P) where
  converse-due :
      (ts : List Round) (known : List PublicKey) (used : ℕ) (start : Key) (a b : Session)
      → Live P known used start a b
      → AreRounds P known ts a b
      → used + 2 * frames_sent ts ≤ max_skip_per_chain
      → converse P ts a b ≡ map due_in ts
  unfolding converse
  converse-due [] known used start a b l r fits = refl
  converse-due (t ∷ ts) known used start a b l r fits =
      let (answers, l') = round_lem P L O known used start a b t l r.0 (omega arith) D in
      ap₂ ◌∷◌ answers (converse-due ts _ _ r.0.sending_key _ _ l' r.1 (omega arith))

  started-Live :
      (shared_key : SecretKey) (signed_prekey own : PrivateKey) (a : Session)
      → length shared_key.expose_secret ≡ 32
      → initiator_with P shared_key (public_key P signed_prekey) own ≡ ok a
      → (start : Key) × Live P
          (public_key P own ∷ public_key P signed_prekey ∷ [])
          0
          start
          a
          (responder P shared_key signed_prekey)
  started-Live shared_key signed_prekey own a h e =
      elim (initiator_with-cases P L shared_key (public_key P signed_prekey) own) [
        | inl refused ↦ absurd (cc)
        | inr (root, chain, derived, root_len, len, run) ↦
            let same : a ≡ started P (public_key P signed_prekey) own root chain =
              ground (arith, e, run) in
            let (start, turn) = initiator_with-Turn P L D shared_key signed_prekey own a e in
            (
              start,
              record {
                turn = turn;
                sender_valid =
                    rw same
                      (started-IsValid P (public_key P signed_prekey) own root chain root_len len);
                receiver_valid = responder-IsValid P shared_key signed_prekey h;
                sender_chains = rw same tt;
                receiver_chains = unfold responder in tt;
                sender_remote = rw same (λ key v. v.1.0);
                receiver_remote = unfold responder in tt;
                sender_own = rw same (λ key v. v.0);
                sender_room = rw same (unfold responder in omega arith);
                receiver_room = rw same (unfold responder in omega arith);
              },
            )
      ]

  -- A whole conversation between an initiator and the responder that holds the same shared key. In
  -- turns, of any number, each party sends plaintexts in a row on a new chain and its peer receives
  -- the frames in any order, any of them lost or repeated, but at least one in each turn. In every turn each
  -- frame is answered with its plaintext when it first arrives and refused as not authentic whenever it
  -- comes again. The shared key has 32 bytes and plaintexts 396, the whole conversation has at most 500
  -- frames, and each ratchet key drawn is new and not refused. The libraries' lengths, the cipher's
  -- round trip and the commutation of Diffie-Hellman are assumed.
  pub conversation_due :
      (shared_key : SecretKey) (signed_prekey own : PrivateKey) (a : Session) (ts : List Round)
      → length shared_key.expose_secret ≡ 32
      → initiator_with P shared_key (public_key P signed_prekey) own ≡ ok a
      → AreRounds P
          (public_key P own ∷ public_key P signed_prekey ∷ [])
          ts
          a
          (responder P shared_key signed_prekey)
      → frames_sent ts ≤ 500
      → converse P ts a (responder P shared_key signed_prekey) ≡ map due_in ts
  conversation_due shared_key signed_prekey own a ts h e r fits =
      let (start, l) = started-Live shared_key signed_prekey own a h e in
      converse-due ts _ 0 start a (responder P shared_key signed_prekey) l r (omega arith)
