-- ===== src/Ratchet/Header.antt =====
-- `Header`: the cleartext ratchet header at the start of a frame.
pub mod Layout
use quietwire.Base.{ℕ, ◌+◌, ◌++◌}
use quietwire.Bytes.{Bytes, slice, to_le_bytes, from_le_bytes}
use quietwire.Crypto.X25519.{PublicKey, public_key_len, from_bytes}
use quietwire.Ratchet.{header_len}

pub record Header : Type 0 where
  pub ratchet : PublicKey
  pub previous_chain_len : ℕ
  pub message_number : ℕ

-- `Header::PREVIOUS_CHAIN_LEN` and `Header::MESSAGE_NUMBER`.
abbrev pub previous_chain_len_at : ℕ
previous_chain_len_at = public_key_len

abbrev pub message_number_at : ℕ
message_number_at = public_key_len + 4

unfoldable pub parse : Bytes → Header
unfolding from_bytes
parse frame = record {
  ratchet = from_bytes (slice 0 previous_chain_len_at frame);
  previous_chain_len = from_le_bytes (slice previous_chain_len_at message_number_at frame);
  message_number = from_le_bytes (slice message_number_at header_len frame);
}

-- The three slices of the zeroed array are written one after the other and fill it.
unfoldable pub to_bytes : Header → Bytes
to_bytes h =
    h.ratchet.as_bytes ++ (to_le_bytes 4 h.previous_chain_len ++ to_le_bytes 4 h.message_number)
