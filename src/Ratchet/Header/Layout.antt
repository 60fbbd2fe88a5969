-- ===== src/Ratchet/Header/Layout.antt =====
-- The header's 40 bytes: `Header::parse` against `Header::to_bytes`.
use quietwire.Base.{
  ℕ, ◌+◌, ◌^◌, ◌<◌, ◌≤◌, ◌≡◌, ap, ap₂, ◌∙◌, sym, ◌++◌, append_assoc, arith, length, take, drop, All,
  length-append, take-append, drop-append, length-take, length-drop, drop-drop, take-add, All-take,
  All-drop,
}
use quietwire.Bytes.{
  Bytes, IsByte, IsArray, slice, to_le_bytes, from_le_bytes, length-to_le_bytes,
  from_le_bytes-to_le_bytes, to_le_bytes-from_le_bytes,
}
use quietwire.Crypto.X25519.{from_bytes}
use quietwire.Ratchet.{header_len, frame_len}
use quietwire.Ratchet.Header.{Header, parse, to_bytes}

-- A header that the source's types allow: a 32-byte key and two `u32`.
pub record IsHeader (h : Header) : Type 0 where
  pub key_len : length h.ratchet.as_bytes ≡ 32
  pub previous_fits : h.previous_chain_len < 2 ^ 32
  pub number_fits : h.message_number < 2 ^ 32

pub length-to_bytes : (h : Header) → IsHeader h → length (to_bytes h) ≡ header_len
unfolding to_bytes
length-to_bytes h v = omega (
  arith,
  length-append h.ratchet.as_bytes
      (to_le_bytes 4 h.previous_chain_len ++ to_le_bytes 4 h.message_number),
  length-append (to_le_bytes 4 h.previous_chain_len) (to_le_bytes 4 h.message_number),
  length-to_le_bytes 4 h.previous_chain_len,
  length-to_le_bytes 4 h.message_number,
  v.key_len,
)

-- Parsing a frame gives back the header that was written in front of it, for a header with a key of
-- 32 bytes and two numbers below 2^32.
pub parse-to_bytes : (h : Header) (rest : Bytes) → IsHeader h → parse (to_bytes h ++ rest) ≡ h
unfolding parse to_bytes from_bytes
parse-to_bytes h rest v = λ i. record {
  ratchet = record { as_bytes = key i };
  previous_chain_len = previous i;
  message_number = number i;
}
  where
    open h use {ratchet, previous_chain_len, message_number}

    tail : Bytes
    tail = to_le_bytes 4 message_number ++ rest

    whole : to_bytes h ++ rest ≡ ratchet.as_bytes ++ (to_le_bytes 4 previous_chain_len ++ tail)
    whole =
        append_assoc ratchet.as_bytes
          (to_le_bytes 4 previous_chain_len ++ to_le_bytes 4 message_number) rest
        ∙ ap (◌++◌ ratchet.as_bytes)
            (append_assoc (to_le_bytes 4 previous_chain_len) (to_le_bytes 4 message_number) rest)

    behind_key : drop 32 (to_bytes h ++ rest) ≡ to_le_bytes 4 previous_chain_len ++ tail
    behind_key = ap (drop 32) whole ∙ drop-append 32 ratchet.as_bytes _ v.key_len

    behind_previous : drop 36 (to_bytes h ++ rest) ≡ tail
    behind_previous =
        sym (drop-drop 32 4 (to_bytes h ++ rest))
        ∙ ap (drop 4) behind_key
        ∙ drop-append 4 (to_le_bytes 4 previous_chain_len) tail (length-to_le_bytes 4 _)

    key : take 32 (to_bytes h ++ rest) ≡ ratchet.as_bytes
    key = ap (take 32) whole ∙ take-append 32 ratchet.as_bytes _ v.key_len

    previous : from_le_bytes (slice 32 36 (to_bytes h ++ rest)) ≡ previous_chain_len
    previous =
        ap (λ t. from_le_bytes (take 4 t)) behind_key
        ∙ ap from_le_bytes
            (take-append 4 (to_le_bytes 4 previous_chain_len) tail (length-to_le_bytes 4 _))
        ∙ from_le_bytes-to_le_bytes 4 previous_chain_len (omega (arith, v.previous_fits))

    number : from_le_bytes (slice 36 40 (to_bytes h ++ rest)) ≡ message_number
    number =
        ap (λ t. from_le_bytes (take 4 t)) behind_previous
        ∙ ap from_le_bytes
            (take-append 4 (to_le_bytes 4 message_number) rest (length-to_le_bytes 4 _))
        ∙ from_le_bytes-to_le_bytes 4 message_number (omega (arith, v.number_fits))

-- A word of a frame, read and written again.
word_again :
    (frame : Bytes) (lo : ℕ)
    → All IsByte frame
    → lo + 4 ≤ length frame
    → to_le_bytes 4 (from_le_bytes (take 4 (drop lo frame))) ≡ take 4 (drop lo frame)
word_again frame lo h fits =
    ap (λ w. to_le_bytes w (from_le_bytes (take 4 (drop lo frame)))) (sym width)
    ∙ to_le_bytes-from_le_bytes (take 4 (drop lo frame))
        (All-take IsByte 4 (drop lo frame) (All-drop IsByte lo frame h))
  where
    width : length (take 4 (drop lo frame)) ≡ 4
    width = omega (arith, length-take 4 (drop lo frame), length-drop lo frame)

-- Writing the header that was parsed from a frame of 452 bytes gives back the first 40 of them.
pub to_bytes-parse :
    (frame : Bytes) → IsArray frame_len frame → to_bytes (parse frame) ≡ take header_len frame
unfolding parse to_bytes from_bytes
to_bytes-parse frame v =
    ap (◌++◌ (take 32 frame)) (
      ap₂ ◌++◌ (word_again frame 32 v.1 (omega (arith, v.0)))
        (word_again frame 36 v.1 (omega (arith, v.0))))
    ∙ sym (
        take-add 32 8 frame
        ∙ ap (◌++◌ (take 32 frame)) (
            take-add 4 4 (drop 32 frame)
            ∙ ap (λ t. take 4 (drop 32 frame) ++ take 4 t) (drop-drop 32 4 frame)))
