-- ===== src/Fuzz/Dialogue/Promises.antt =====
-- What the actions of a conversation of the fuzz target test: the promises of the ratchet.
use quietwire.Base.{ℕ, ◌%◌, ◌≡◌, ◌≢◌, ◌⊎◌, none, some, length, get_elem?}
use quietwire.Base.{ok, err, panic}
use quietwire.Bytes.{Bytes}
use quietwire.Crypto.{Primitives}
use quietwire.Crypto.Secret.{Draw}
use quietwire.Crypto.Aead
use quietwire.Ratchet.{Error}
use quietwire.Ratchet.Session.{decrypt}
use quietwire.Fuzz.Dialogue.{
  Action, send, deliver, tamper, InFlight, Conversation, Party, session, inbox,
}
use quietwire.Fuzz.Dialogue.Journal.{Journal, numbers, seen, promised, Follows}
use quietwire.Fuzz.Dialogue.Invariant.{IsConversation}
use quietwire.Fuzz.Dialogue.Sends.{Sends}
use quietwire.Fuzz.Dialogue.Tampers.{Tampered}

-- The generator works: a nonce of 24 bytes is drawn for each frame.
abbrev pub IsDrawn : Action × Draw → Type 0
IsDrawn (send from, none) = ⊥
IsDrawn (send from, some bytes) = length bytes ≡ Aead.nonce_len
IsDrawn (deliver to pick, draw) = Unit {0}
IsDrawn (tamper to pick at xor, draw) = Unit {0}

-- The conversation is one of the target, and as the journal has it.
pub record IsRecorded (j : Journal) (c : Conversation) : Type 0 where
  pub conversation : IsConversation c
  pub follows : Follows j c

module _ (P : Primitives) where
  -- A delivery: the frame at the picked index, the number of its plaintext in the journal, and that the
  -- ratchet does not panic on it.
  pub record Attempt (to : Party) (pick : ℕ) (draw : Draw) (j : Journal) (c : Conversation)
      : Type 0 where
    pub index : ℕ
    pub frame : InFlight
    pub number : ℕ
    pub picked : index ≡ pick % length (numbers to j)
    pub here : get_elem? (inbox to c) index ≡ some frame
    pub numbered : get_elem? (numbers to j) index ≡ some number
    pub calm : (decrypt P frame.sealed draw (session to c)).0 ≢ panic

  -- The ratchet's answer is the promised one: the plaintext at the first delivery of the frame, and a
  -- refusal as not authentic at each later one.
  abbrev pub IsPromised :
      (to : Party) (pick : ℕ) (draw : Draw) (j : Journal) (c : Conversation)
      → Attempt to pick draw j c
      → Type 0
  IsPromised to pick draw j c d =
      (decrypt P d.frame.sealed draw (session to c)).0 ≡ promised d.number d.index (seen to j)

  -- The promise that an action has tested, on the journal of the actions before. The session after the
  -- ratchet's answer is stored.
  abbrev pub Kept : Action → Draw → Journal → (c c' : Conversation) → Type 0
  Kept (send from) draw j c c' = Sends P from draw c c'
  Kept (deliver to pick) draw j c c' =
      ((length (numbers to j) ≡ 0) × (c' ≡ c))
      ⊎ ((d : Attempt to pick draw j c) × (decrypt P d.frame.sealed draw (session to c)
            ≡ (promised d.number d.index (seen to j), session to c')))
  Kept (tamper to pick at xor) draw j c c' =
      (c' ≡ c)
      × (((length (numbers to j) ≡ 0) ⊎ (xor ≡ 0))
          ⊎ ((t : Tampered to pick at xor draw c) × (e : Error) × (decrypt P t.sealed draw
                  (session to c)
                ≡ (err e, session to c'))))

  -- The promise that the ratchet has broken when an action fails.
  abbrev pub Broken : Action → Draw → Journal → Conversation → Type 0
  Broken (send from) draw j c = ⊥
  Broken (deliver to pick) draw j c =
      (d : Attempt to pick draw j c) × (¬ IsPromised to pick draw j c d)
  Broken (tamper to pick at xor) draw j c =
      (t : Tampered to pick at xor draw c) × (plaintext : Bytes) × ((decrypt P t.sealed draw
          (session to c)).0
        ≡ ok plaintext)
