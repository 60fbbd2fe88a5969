-- ===== src/Ratchet/Tests.antt =====
-- The theorems about headers, chains and skipped keys, applied to small ones.
use quietwire.Base.{
  ltb, false, ℕ, zero, suc, All, ◌-◌, ◌≤◌, ◌≡◌, refl, List, [], ◌∷◌, ◌++◌, map, arith, drop, take,
  length, replicate,
}
use quietwire.Bytes.{Bytes, IsByte, beq}
use quietwire.Crypto.X25519.{PublicKey}
use quietwire.Ratchet.{Key, max_skip_per_chain, max_skipped_total, header_len, frame_len}
use quietwire.Ratchet.Header.{Header, parse, to_bytes}
use quietwire.Ratchet.Header.Layout.{IsHeader, parse-to_bytes, to_bytes-parse}
use quietwire.Ratchet.Chain.{Cursor, message_key, skip_loop}
use quietwire.Ratchet.Chain.Schedule.{skipped_by, skip_loop-ends}
use quietwire.Ratchet.Chain.MessageKey.{answer, message_key-answer}
use quietwire.Ratchet.Skipped.{SkippedKey, count_in_chain, extend, with_ratchet}
use quietwire.Ratchet.Skipped.Eviction.{chain_of, outside, extend_lem}
use quietwire.Ratchet.Skipped.Bounds.{extend_bounds}
use quietwire.Toy.{toy}
use mathlib.Core.List.{Sublist}

abbrev chain_key : Key
chain_key = replicate 32 196

abbrev plaintext : Bytes
plaintext = replicate 396 1

bytes : (n : ℕ) → All IsByte (replicate n 5)
bytes zero = tt
bytes (suc n) = (omega arith, bytes n)

abbrev cursor : Cursor
cursor = record { key = chain_key; next = 4; skipped = [] }

skip_loop-ends_example :
    (skip_loop toy 7 cursor 9 ≡ skipped_by toy cursor 5)
    × (ltb (skip_loop toy 7 cursor 9).next 9 ≡ false)
skip_loop-ends_example = skip_loop-ends toy 7 cursor 9 (omega arith) (omega arith)

message_key-answer_example : message_key toy cursor 9 ≡ answer toy cursor 9
message_key-answer_example = message_key-answer toy cursor 9 (omega arith)

abbrev remote : PublicKey
remote = record { as_bytes = replicate 32 6 }

abbrev other : PublicKey
other = record { as_bytes = replicate 32 8 }

abbrev held : List SkippedKey
held =
    record { ratchet = other; number = 1; key = replicate 32 1 }
    ∷ record { ratchet = remote; number = 2; key = replicate 32 2 }
    ∷ []

abbrev passed : List (ℕ × Key)
passed = (3, replicate 32 3) ∷ (4, replicate 32 4) ∷ []

extend_lem_example :
    let all = held ++ map (with_ratchet remote) passed in
    (kept : List SkippedKey) × Sublist kept all
    × (chain_of remote kept
        ≡ drop (length (chain_of remote all) - max_skip_per_chain) (chain_of remote all))
    × (outside remote kept ≡ outside remote all)
    × (extend remote passed held ≡ drop (length kept - max_skipped_total) kept)
extend_lem_example = extend_lem remote passed held

one_held : count_in_chain other held ≤ max_skip_per_chain
unfolding count_in_chain beq
one_held = omega arith

extend_bounds_example :
    (length (extend remote passed held) ≤ max_skipped_total)
    × (count_in_chain other (extend remote passed held) ≤ max_skip_per_chain)
extend_bounds_example = extend_bounds remote other passed held one_held

abbrev header : Header
header = record { ratchet = remote; previous_chain_len = 300; message_number = 70000 }

header-IsHeader : IsHeader header
header-IsHeader = record { key_len = refl; previous_fits = omega arith; number_fits = omega arith }

parse-to_bytes_example : parse (to_bytes header ++ plaintext) ≡ header
parse-to_bytes_example = parse-to_bytes header plaintext header-IsHeader

to_bytes-parse_example :
    to_bytes (parse (replicate frame_len 5)) ≡ take header_len (replicate frame_len 5)
to_bytes-parse_example = to_bytes-parse (replicate frame_len 5) (refl, bytes frame_len)
