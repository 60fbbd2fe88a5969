-- ===== src/Fuzz/Dialogue/Journal.antt =====
-- What the actions of a conversation of the fuzz target come to, with no session and no cipher: which
-- plaintexts have been sent to whom, and which of them have been delivered.
use quietwire.Base.{
  ℕ, suc, ◌%◌, ◌<◌, ◌≡◌, Bool, true, false, ◌||◌, List, [], ◌∷◌, ◌++◌, some, get_elem?, length,
  ◌==◌, if◌then◌else◌,
}
use quietwire.Base.{Result, ok, err}
use quietwire.Bytes.{Bytes}
use quietwire.Crypto.{authentication}
use quietwire.Crypto.Secret.{Draw}
use quietwire.Ratchet.{Error, crypto}
use quietwire.Fuzz.Dialogue.{
  Party, alice, bob, Action, send, deliver, tamper, InFlight, Conversation, numbered_plaintext,
}

-- The numbers of the plaintexts sent to each party, and the indices of those that were delivered.
pub record Journal : Type 0 where
  pub sent : ℕ
  pub for_alice : List ℕ
  pub for_bob : List ℕ
  pub seen_alice : List ℕ
  pub seen_bob : List ℕ

abbrev pub blank : Journal
blank = record { sent = 0; for_alice = []; for_bob = []; seen_alice = []; seen_bob = [] }

abbrev pub numbers : Party → Journal → List ℕ
numbers alice j = j.for_alice
numbers bob j = j.for_bob

abbrev pub seen : Party → Journal → List ℕ
seen alice j = j.seen_alice
seen bob j = j.seen_bob

abbrev pub member : ℕ → List ℕ → Bool
member i [] = false
member i (k ∷ ks) = (i == k) || member i ks

abbrev pub is_some : List ℕ → Bool
is_some [] = false
is_some (k ∷ ks) = true

abbrev pub see : Party → ℕ → Journal → Journal
see alice i j = record j { seen_alice = i ∷ j.seen_alice }
see bob i j = record j { seen_bob = i ∷ j.seen_bob }

-- The journal after an action that has passed. A responder to whom nothing was delivered sends nothing.
abbrev pub note : Action → Journal → Journal
note (send alice) j = record j { sent = suc j.sent; for_bob = j.for_bob ++ (j.sent ∷ []) }
note (send bob) j =
    if is_some j.seen_bob
    then record j { sent = suc j.sent; for_alice = j.for_alice ++ (j.sent ∷ []) }
    else record j { sent = suc j.sent }
note (deliver to pick) j =
    if is_some (numbers to j) then see to (pick % length (numbers to j)) j else j
note (tamper to pick at xor) j = j

abbrev pub journal : List (Action × Draw) → Journal → Journal
journal [] j = j
journal ((action, draw) ∷ actions) j = journal actions (note action j)

-- The ratchet's promise for a delivery: the plaintext the first time, and a refusal after.
abbrev pub promised : ℕ → ℕ → List ℕ → Result Error Bytes
promised number i ks =
    if member i ks then err (crypto authentication) else ok (numbered_plaintext number)

-- An inbox has the frames of the numbered plaintexts, and marks those that were delivered.
pub record IsInbox (ns ks : List ℕ) (frames : List InFlight) : Type 0 where
  pub size : length frames ≡ length ns
  pub within : (i : ℕ) → member i ks ≡ true → i < length ns
  pub each :
      (i : ℕ) (frame : InFlight)
      → get_elem? frames i ≡ some frame
      → (number : ℕ) × (get_elem? ns i ≡ some number)
        × (frame.plaintext ≡ numbered_plaintext number)
        × (frame.opened ≡ member i ks)

-- The conversation is as the journal has it.
pub record Follows (j : Journal) (c : Conversation) : Type 0 where
  pub counted : c.sent ≡ j.sent
  pub alice_inbox : IsInbox j.for_alice j.seen_alice c.to_alice
  pub bob_inbox : IsInbox j.for_bob j.seen_bob c.to_bob
  pub received : c.bob_has_received ≡ is_some j.seen_bob
