-- ===== src/Ratchet/Session.antt =====
-- `Session`: one side of a Double Ratchet. A `&mut self` method is an action on the session: what it
-- assigned before it failed stays assigned, as in the source.
pub mod Steps
pub mod Invariant
pub mod Outcomes
pub mod StepCalls
pub mod SkippedOutcome
pub mod StepOutcome
pub mod Encrypt
pub mod Decrypt
pub mod Atomicity
pub mod Replay
pub mod Delivery
pub mod Exchange
pub mod Mirrors
pub mod Retains
pub mod AnyOrder
pub mod Crossing
pub mod Bursts
pub mod Late
pub mod Reordering
pub mod Turns
pub mod Start
pub mod Reachable
pub mod Keeping
pub mod Conversing
mod Tests
use quietwire.Base.{
  ℕ, ◌+◌, ◌≡◌, Bool, true, false, Option, none, some, List, [], ◌++◌, if◌then◌else◌, leb, length,
  take, drop, ◌==◌,
}
use quietwire.Base.{Result, ok, err, panic, map_err, ok_or, ◌>>=◌ as ◌>>=ᴿ◌}
use quietwire.Bytes.{Bytes}
use quietwire.Crypto
use quietwire.Crypto.{Primitives, authentication}
use quietwire.Crypto.Secret.{SecretKey, Draw, from_slice}
use quietwire.Crypto.Aead
use quietwire.Crypto.Aead.{Nonce, seal, open_sealed}
use quietwire.Crypto.X25519
use quietwire.Crypto.X25519.{PrivateKey, PublicKey, public_key}
use quietwire.Ratchet.{
  Key, Error, crypto, sending_blocked, SealedFrame, header_len, plaintext_len, chain_limit,
}
use quietwire.Ratchet.Header.{Header, parse, to_bytes}
use quietwire.Ratchet.Chain.{
  Chain, start, Cursor, new, at, into_chain, kdf_root, next_message_key, skip_to, message_key,
}
use quietwire.Ratchet.Skipped.{SkippedKey, same_ratchet, position, key_at, remove, extend}

pub record Session : Type 0 where
  pub root_key : SecretKey
  pub own_ratchet : PrivateKey
  pub remote_ratchet : Option PublicKey
  pub sending : Option Chain
  pub receiving : Option Chain
  pub previous_sending_len : ℕ
  pub skipped : List SkippedKey

abbrev pub M : Type 0 → Type 0
M A = Session → Result Error A × Session

abbrev pub continue_with :
    {A B : Type 0} → Result Error A × Session → (A → M B) → Result Error B × Session
continue_with (ok a, s) f = f a s
continue_with (err e, s) f = (err e, s)
continue_with (panic, s) f = (panic, s)

infixl 5 ◌>>=◌ ◌>>◌
abbrev pub ◌>>=◌ : {A B : Type 0} → M A → (A → M B) → M B
◌>>=◌ m f s = continue_with (m s) f

abbrev pub ◌>>◌ : {B : Type 0} → M (Unit {0}) → M B → M B
◌>>◌ m k s = continue_with (m s) (λ _. k)

abbrev pub pure : {A : Type 0} → A → M A
pure a s = (ok a, s)

-- `?` on a result.
abbrev pub lift : {A : Type 0} → Result Error A → M A
lift r s = (r, s)

abbrev pub self : M Session
self s = (ok s, s)

abbrev pub modify : (Session → Session) → M (Unit {0})
modify f s = (ok tt, f s)

-- `plaintext.copy_from_slice(&opened)` panics unless 396 bytes were opened.
unfoldable pub plaintext_array : Bytes → Result Error Bytes
plaintext_array opened = if length opened == plaintext_len then ok opened else panic

-- `sealed` fills `frame[HEADER_LEN..]`, or `copy_from_slice` panics.
unfoldable pub frame_of : Bytes → Bytes → Result Error Bytes
frame_of header sealed =
    if length sealed == plaintext_len + Aead.tag_len then ok (header ++ sealed) else panic

abbrev pub is_remote : Option PublicKey → PublicKey → Bool
is_remote none key = false
is_remote (some remote) key = same_ratchet remote key

abbrev pub next_or_zero : Option Chain → ℕ
next_or_zero none = 0
next_or_zero (some chain) = chain.next

module _ (P : Primitives) where
  -- The function `open`.
  unfoldable pub open_frame : Key → SealedFrame → Result Error Bytes
  unfolding plaintext_array
  open_frame message_key sealed = map_err crypto (from_slice message_key) >>=ᴿ λ key.
      map_err crypto (
        open_sealed P key sealed.nonce (take header_len sealed.frame)
          (drop header_len sealed.frame))
      >>=ᴿ plaintext_array

  -- `Session::initiator_with`, and `Session::initiator` on what `PrivateKey::generate` drew.
  unfoldable pub initiator_with : SecretKey → PublicKey → PrivateKey → Result Error Session
  initiator_with shared_key remote_ratchet own_ratchet =
      kdf_root P shared_key own_ratchet remote_ratchet >>=ᴿ λ keys. start keys.1 >>=ᴿ λ chain.
      ok (record {
        root_key = keys.0;
        own_ratchet = own_ratchet;
        remote_ratchet = some remote_ratchet;
        sending = some chain;
        receiving = none;
        previous_sending_len = 0;
        skipped = [];
      })

  unfoldable pub initiator : SecretKey → PublicKey → Draw → Result Error Session
  unfolding initiator_with
  initiator shared_key remote_ratchet draw =
      map_err crypto (X25519.generate draw) >>=ᴿ initiator_with shared_key remote_ratchet

  unfoldable pub responder : SecretKey → PrivateKey → Session
  responder shared_key signed_prekey = record {
    root_key = shared_key;
    own_ratchet = signed_prekey;
    remote_ratchet = none;
    sending = none;
    receiving = none;
    previous_sending_len = 0;
    skipped = [];
  }

  abbrev chain_open : Chain → Result Error Chain
  chain_open chain = if leb chain_limit chain.next then err sending_blocked else ok chain

  abbrev header_bytes : Session → Chain → Bytes
  header_bytes s chain = to_bytes (record {
    ratchet = public_key P s.own_ratchet;
    previous_chain_len = s.previous_sending_len;
    message_number = chain.next;
  })

  -- `Session::encrypt_with`, and `Session::encrypt` on what `Nonce::random` drew.
  unfoldable pub encrypt_with : Nonce → Bytes → M SealedFrame
  unfolding frame_of
  encrypt_with nonce plaintext = do
    s ← self
    some_chain ← lift (ok_or s.sending sending_blocked)
    chain ← lift (chain_open some_chain)
    let header = header_bytes s chain
    let (key, cursor) = next_message_key P (at chain)
    message_key ← lift (map_err crypto (from_slice key))
    sealed ← lift (map_err crypto (seal P message_key nonce header plaintext))
    frame ← lift (frame_of header sealed)
    chain' ← lift (into_chain cursor)
    modify (λ s'. record s' { sending = some chain' })
    pure (record { nonce = nonce; frame = frame })

  unfoldable pub encrypt : Draw → Bytes → M SealedFrame
  unfolding encrypt_with
  encrypt draw plaintext = do
    nonce ← lift (map_err crypto (Aead.random draw))
    encrypt_with nonce plaintext

  -- The branch of `decrypt_with` for a key that was skipped.
  unfoldable pub decrypt_skipped : ℕ → SealedFrame → M Bytes
  unfolding open_frame
  decrypt_skipped index sealed = do
    s ← self
    key ← lift (key_at s.skipped index)
    plaintext ← lift (open_frame key sealed)
    modify (λ s'. record s' { skipped = remove s'.skipped index })
    pure plaintext

  unfoldable pub decrypt_in_receiving_chain : Header → SealedFrame → M Bytes
  unfolding open_frame
  decrypt_in_receiving_chain header sealed = do
    s ← self
    chain ← lift (ok_or s.receiving (crypto authentication))
    (key, cursor) ← lift (message_key P (at chain) header.message_number)
    plaintext ← lift (open_frame key sealed)
    modify (λ s'. record s' { skipped = extend header.ratchet cursor.skipped s'.skipped })
    chain' ← lift (into_chain cursor)
    modify (λ s'. record s' { receiving = some chain' })
    pure plaintext

  -- `previous`: the receiving chain moved on to the length that the header states.
  abbrev skip_previous : Option Chain → ℕ → Result Error (Option Cursor)
  skip_previous none until = ok none
  skip_previous (some chain) until = skip_to P (at chain) until >>=ᴿ λ cursor. ok (some cursor)

  -- `if let (Some(mut previous), Some(remote)) = (previous, self.remote_ratchet)`
  abbrev extend_previous : Option Cursor → Option PublicKey → List SkippedKey → List SkippedKey
  extend_previous none remote ks = ks
  extend_previous (some previous) none ks = ks
  extend_previous (some previous) (some remote) ks = extend remote previous.skipped ks

  unfoldable pub decrypt_after_ratchet_step :
      Header → SealedFrame → Result Crypto.Error PrivateKey → M Bytes
  unfolding open_frame
  decrypt_after_ratchet_step header sealed next_ratchet = do
    s ← self
    previous ← lift (skip_previous s.receiving header.previous_chain_len)
    (root_key', receiving_key) ← lift (kdf_root P s.root_key s.own_ratchet header.ratchet)
    own ← lift (map_err crypto next_ratchet)
    (root_key, sending_key) ← lift (kdf_root P root_key' own header.ratchet)
    (key, cursor) ← lift (message_key P (new receiving_key) header.message_number)
    plaintext ← lift (open_frame key sealed)
    modify (λ s'. record s' { skipped = extend_previous previous s'.remote_ratchet s'.skipped })
    modify (λ s'. record s' { skipped = extend header.ratchet cursor.skipped s'.skipped })
    modify (λ s'. record s' {
      root_key = root_key;
      own_ratchet = own;
      remote_ratchet = some header.ratchet;
      previous_sending_len = next_or_zero s'.sending;
    })
    sending ← lift (start sending_key)
    modify (λ s'. record s' { sending = some sending })
    receiving ← lift (into_chain cursor)
    modify (λ s'. record s' { receiving = some receiving })
    pure plaintext

  -- `next_ratchet` is what the closure would return; only a ratchet step calls it.
  unfoldable pub decrypt_with : SealedFrame → Result Crypto.Error PrivateKey → M Bytes
  unfolding decrypt_skipped decrypt_in_receiving_chain decrypt_after_ratchet_step
  decrypt_with sealed next_ratchet s =
      let header = parse sealed.frame in
      elim (position s.skipped header) [
        | some index ↦ decrypt_skipped index sealed s
        | none ↦
            if is_remote s.remote_ratchet header.ratchet
            then decrypt_in_receiving_chain header sealed s
            else decrypt_after_ratchet_step header sealed next_ratchet s
      ]

  -- `Session::decrypt`.
  unfoldable pub decrypt : SealedFrame → Draw → M Bytes
  unfolding decrypt_with
  decrypt sealed draw = decrypt_with sealed (X25519.generate draw)
