-- ===== src/Texts/Distinct.antt =====
-- A reader of the texts of errors, for which error each one is.
use quietwire.Base.{
  ℕ, ◌+◌, ◌-◌, ◌*◌, ◌≡◌, refl, sym, ap, ◌∙◌, true, ◌&&◌, [], ◌∷◌, ◌++◌, leb, ◌==◌, ==_iff,
  if◌then◌else◌, drop,
}
use quietwire.Bytes.{Bytes, IsByte, beq, all_below, below-all_below}
use quietwire.Crypto
use quietwire.Ratchet
use quietwire.Cell
use quietwire.Texts.{codes, crypto_text, ratchet_text, decimal, prefixed_hex, cell_text}

-- Which error of the library a text tells of.
unfoldable read_crypto : Bytes → Crypto.Error
unfolding beq crypto_text
read_crypto text =
    if beq text (crypto_text Crypto.invalid_length)
    then Crypto.invalid_length
    else (if beq text (crypto_text Crypto.authentication)
        then Crypto.authentication
        else (if beq text (crypto_text Crypto.rng)
            then Crypto.rng
            else (if beq text (crypto_text Crypto.kdf)
                then Crypto.kdf
                else (if beq text (crypto_text Crypto.invalid_public_key)
                    then Crypto.invalid_public_key
                    else Crypto.invalid_signature))))

unfoldable read_ratchet : Bytes → Ratchet.Error
unfolding beq ratchet_text read_crypto
read_ratchet text =
    if beq text (ratchet_text Ratchet.sending_blocked)
    then Ratchet.sending_blocked
    else (if beq text (ratchet_text Ratchet.too_far_ahead)
        then Ratchet.too_far_ahead
        else Ratchet.crypto (read_crypto text))

read_ratchet-ratchet_text : (e : Ratchet.Error) → read_ratchet (ratchet_text e) ≡ e
unfolding read_ratchet
read_ratchet-ratchet_text (Ratchet.crypto Crypto.invalid_length) = refl
read_ratchet-ratchet_text (Ratchet.crypto Crypto.authentication) = refl
read_ratchet-ratchet_text (Ratchet.crypto Crypto.rng) = refl
read_ratchet-ratchet_text (Ratchet.crypto Crypto.kdf) = refl
read_ratchet-ratchet_text (Ratchet.crypto Crypto.invalid_public_key) = refl
read_ratchet-ratchet_text (Ratchet.crypto Crypto.invalid_signature) = refl
read_ratchet-ratchet_text Ratchet.sending_blocked = refl
read_ratchet-ratchet_text Ratchet.too_far_ahead = refl

-- No two errors of the ratchet have the same text, those of the cryptographic library included.
pub ratchet_text-injective : (e e' : Ratchet.Error) → ratchet_text e ≡ ratchet_text e' → e ≡ e'
ratchet_text-injective e e' h =
    sym (read_ratchet-ratchet_text e) ∙ ap read_ratchet h ∙ read_ratchet-ratchet_text e'

-- The number that the decimal digits at the front of a text show.
unfoldable read_decimal : ℕ → Bytes → ℕ
read_decimal n [] = n
read_decimal n (c ∷ text) =
    let more = read_decimal (10 * n + (c - b'0')) text in
    if leb b'0' c && leb c b'9' then more else n

read_hex_digit : ℕ → ℕ
read_hex_digit c = if leb c b'9' then c - b'0' else c + 10 - b'a'

-- The number in a text of two hexadecimal digits.
unfoldable read_hex : Bytes → ℕ
unfolding read_hex_digit
read_hex [] = 0
read_hex (a ∷ []) = 0
read_hex (a ∷ b ∷ text) = 16 * read_hex_digit a + read_hex_digit b

unfoldable read_cell : Bytes → Cell.Error
unfolding read_decimal read_hex
read_cell [] = Cell.rng
read_cell (c ∷ text) =
    if c == b'a'
    then Cell.invalid_length
    else (if c == b'u'
        then Cell.unsupported_version (read_hex (drop 21 text))
        else (if c == b't'
            then Cell.ttl_out_of_range (read_decimal 0 (drop 3 text))
            else (if c == b'c'
                then Cell.copies_out_of_range (read_decimal 0 (drop 6 text))
                else Cell.rng)))

-- The numbers that a text shows are bytes.
abbrev pub IsShown : Cell.Error → Type 0
IsShown Cell.invalid_length = Unit {0}
IsShown (Cell.unsupported_version version) = IsByte version
IsShown (Cell.ttl_out_of_range ttl) = IsByte ttl
IsShown (Cell.copies_out_of_range copies) = IsByte copies
IsShown Cell.rng = Unit {0}

hex_table : all_below 256 (λ n. read_hex (drop 2 (prefixed_hex n)) == n) ≡ true
unfolding all_below read_hex prefixed_hex
hex_table = refl

ttl_table : all_below 256 (λ n. read_decimal 0 (decimal n ++ codes " above 64") == n) ≡ true
unfolding all_below read_decimal decimal
ttl_table = refl

copies_table : all_below 256 (λ n. read_decimal 0 (decimal n ++ codes " above 15") == n) ≡ true
unfolding all_below read_decimal decimal
copies_table = refl

read_cell-cell_text : (e : Cell.Error) → IsShown e → read_cell (cell_text e) ≡ e
unfolding read_cell cell_text
read_cell-cell_text Cell.invalid_length h = refl
read_cell-cell_text (Cell.unsupported_version n) h = ap Cell.unsupported_version (
    (==_iff _ n).0
      (below-all_below 256 (λ n. read_hex (drop 2 (prefixed_hex n)) == n) n h hex_table))
read_cell-cell_text (Cell.ttl_out_of_range n) h = ap Cell.ttl_out_of_range (
    (==_iff _ n).0 (
      below-all_below 256 (λ n. read_decimal 0 (decimal n ++ codes " above 64") == n) n h
        ttl_table))
read_cell-cell_text (Cell.copies_out_of_range n) h = ap Cell.copies_out_of_range (
    (==_iff _ n).0 (
      below-all_below 256 (λ n. read_decimal 0 (decimal n ++ codes " above 15") == n) n h
        copies_table))
read_cell-cell_text Cell.rng h = refl

-- No two errors of a cell have the same text, whatever bytes they show.
pub cell_text-injective :
    (e e' : Cell.Error) → IsShown e → IsShown e' → cell_text e ≡ cell_text e' → e ≡ e'
cell_text-injective e e' v v' h =
    sym (read_cell-cell_text e v) ∙ ap read_cell h ∙ read_cell-cell_text e' v'
