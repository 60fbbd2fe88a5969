-- ===== src/Ratchet.antt =====
-- crates/quietwire-e2e/src/ratchet.rs: the Double Ratchet. Its constants and errors; the children
-- model the header, the chains, the skipped keys and the session, each above the proofs about it.
pub mod Header
pub mod Chain
pub mod Skipped
pub mod Session
mod Tests
use quietwire.Base.{ℕ, ◌+◌, ◌*◌}
use quietwire.Bytes.{Bytes}
use quietwire.Crypto
use quietwire.Crypto.X25519.{public_key_len}
use quietwire.Crypto.Aead.{Nonce, tag_len}

abbrev pub header_len : ℕ
header_len = public_key_len + 4 + 4

abbrev pub plaintext_len : ℕ
plaintext_len = 396

abbrev pub frame_len : ℕ
frame_len = header_len + plaintext_len + tag_len

abbrev pub chain_limit : ℕ
chain_limit = 2000

abbrev pub max_skip_per_chain : ℕ
max_skip_per_chain = 1000

abbrev pub max_skipped_total : ℕ
max_skipped_total = 10000

-- The type `Key` of the source: 32 bytes.
abbrev pub Key : Type 0
Key = Bytes

pub data Error : Type 0 where
  crypto : Crypto.Error → Error
  sending_blocked too_far_ahead : Error

pub record SealedFrame : Type 0 where
  pub nonce : Nonce
  pub frame : Bytes
