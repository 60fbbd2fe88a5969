-- ===== src/Ratchet/Session/Invariant.antt =====
-- What every session keeps: keys of 32 bytes, chains within their limit, bounded skipped keys.
use quietwire.Base.{◌≤◌, ◌<◌, ◌≡◌, Option, none, some, length, All}
use quietwire.Crypto.X25519.{PublicKey}
use quietwire.Ratchet.{chain_limit, max_skip_per_chain, max_skipped_total}
use quietwire.Ratchet.Chain.{Chain}
use quietwire.Ratchet.Skipped.{SkippedKey, count_in_chain}
use quietwire.Ratchet.Session.{Session}

pub record IsChain (chain : Chain) : Type 0 where
  pub key_len : length chain.key.expose_secret ≡ 32
  pub within : chain.next ≤ chain_limit

abbrev pub IsChain? : Option Chain → Type 0
IsChain? none = Unit {0}
IsChain? (some chain) = IsChain chain

pub record IsSkipped (k : SkippedKey) : Type 0 where
  pub key_len : length k.key ≡ 32
  pub within : k.number < chain_limit

pub record IsValid (s : Session) : Type 0 where
  pub root_len : length s.root_key.expose_secret ≡ 32
  pub sends : IsChain? s.sending
  pub receives : IsChain? s.receiving
  pub previous_within : s.previous_sending_len ≤ chain_limit
  pub skips : All IsSkipped s.skipped
  pub total : length s.skipped ≤ max_skipped_total
  pub per_chain : (r : PublicKey) → count_in_chain r s.skipped ≤ max_skip_per_chain
