-- ===== src/Ratchet/Session/Conversing.antt =====
-- Two sessions that take turns: each sends a number of frames in a row, of which the other receives
-- some, in any order, and then answers.
pub mod Chains
pub mod Arrivals
pub mod Rounds
pub mod Conversation
use quietwire.Base.{
  ℕ, ◌+◌, ◌≤◌, ◌<◌, ◌≡◌, false, Option, none, some, List, [], ◌∷◌, map, length, All,
}
use quietwire.Base.{Result, ok, err, panic}
use quietwire.Bytes.{Bytes}
use quietwire.Crypto.{Primitives}
use quietwire.Crypto.Secret.{SecretKey}
use quietwire.Crypto.Aead.{Nonce}
use quietwire.Crypto.X25519.{PrivateKey, PublicKey, public_key}
use quietwire.Ratchet.{Key, Error, SealedFrame, plaintext_len}
use quietwire.Ratchet.Chain.{kdf_root}
use quietwire.Ratchet.Skipped.{same_ratchet}
use quietwire.Ratchet.Session.{Session, next_or_zero}
use quietwire.Ratchet.Session.Invariant.{IsValid}
use quietwire.Ratchet.Session.Exchange.{Turn}
use quietwire.Ratchet.Session.Crossing.{none_taken}
use quietwire.Ratchet.Session.Bursts.{NextRatchet, encrypt_all, decrypt_all, after_all, due}
use quietwire.Ratchet.Session.Keeping.{KnowsChains}

-- A party's turn: the plaintexts that it sends with their nonces, the indices of the frames as they
-- arrive, the first and the later ones, and the ratchet key that its peer draws.
pub record Round : Type 0 where
  pub messages : List (Nonce × Bytes)
  pub first : ℕ
  pub later : List ℕ
  pub own : PrivateKey

abbrev pub plaintexts : Round → List Bytes
plaintexts t = map (λ (m : Nonce × Bytes). m.1) t.messages

abbrev pub arrivals : Round → List (ℕ × NextRatchet)
arrivals t = map (λ i. (i, ok t.own)) (t.first ∷ t.later)

-- What was sent, if sending did not fail.
abbrev pub frames_of : Result Error (List SealedFrame) → List SealedFrame
frames_of (ok frames) = frames
frames_of (err e) = []
frames_of panic = []

-- A key under none of the known ones.
abbrev pub IsNew : List PublicKey → PublicKey → Type 0
IsNew known key = All (λ r. same_ratchet r key ≡ false) known

-- Among the known keys, as far as new keys can tell.
abbrev pub Known : List PublicKey → PublicKey → Type 0
Known known r = (key : PublicKey) → IsNew known key → same_ratchet r key ≡ false

abbrev pub KnowsRemote : List PublicKey → Option PublicKey → Type 0
KnowsRemote known none = Unit {0}
KnowsRemote known (some r) = Known known r

-- The answers that are due in a round.
abbrev pub due_in : Round → List (Result Error Bytes)
due_in t = due none_taken 0 (plaintexts t) (arrivals t)

abbrev pub frames_sent : List Round → ℕ
frames_sent [] = 0
frames_sent (t ∷ ts) = length t.messages + frames_sent ts

module _ (P : Primitives) where
  -- The sessions after a round, the receiver first: it has the next turn.
  abbrev pub receiver_after : Round → Session → Session → Session
  receiver_after t a b = after_all P (frames_of (encrypt_all P t.messages a).0) (arrivals t) b

  abbrev pub sender_after : Round → Session → Session
  sender_after t a = (encrypt_all P t.messages a).1

  -- The answers of each round; `a` begins.
  unfoldable pub converse : List Round → Session → Session → List (List (Result Error Bytes))
  converse [] a b = []
  converse (t ∷ ts) a b =
      decrypt_all P (frames_of (encrypt_all P t.messages a).0) (arrivals t) b
      ∷ converse ts (receiver_after t a b) (sender_after t a)

  -- What the parties put into a round: plaintexts of 396 bytes, at least one frame that arrives, and a
  -- ratchet key that is new and is not refused.
  pub record IsRound (known : List PublicKey) (t : Round) (a : Session) : Type 0 where
    pub sizes : All (λ (m : Nonce × Bytes). length m.1 ≡ plaintext_len) t.messages
    pub arrives_first : t.first < length t.messages
    pub new : IsNew known (public_key P t.own)
    pub root : SecretKey
    pub sending_key : Key
    pub accepted : kdf_root P a.root_key t.own (public_key P a.own_ratchet) ≡ ok (root, sending_key)

  abbrev pub AreRounds : List PublicKey → List Round → Session → Session → Type 0
  AreRounds known [] a b = Unit {0}
  AreRounds known (t ∷ ts) a b =
      IsRound known t a
      × AreRounds (public_key P t.own ∷ known) ts (receiver_after t a b) (sender_after t a)

  -- `a` has the turn. No chain is under a key that is not known, and `used` bounds the kept keys.
  pub record Live (known : List PublicKey) (used : ℕ) (start : Key) (a b : Session) : Type 0 where
    pub turn : Turn P start 0 a b
    pub sender_valid : IsValid a
    pub receiver_valid : IsValid b
    pub sender_chains : KnowsChains (Known known) a.skipped
    pub receiver_chains : KnowsChains (Known known) b.skipped
    pub sender_remote : KnowsRemote known a.remote_ratchet
    pub receiver_remote : KnowsRemote known b.remote_ratchet
    pub sender_own : Known known (public_key P a.own_ratchet)
    pub sender_room : length a.skipped + next_or_zero b.sending ≤ used
    pub receiver_room : length b.skipped + a.previous_sending_len ≤ used
