-- ===== src/Texts/Tests.antt =====
-- The texts of some errors.
use quietwire.Base.{◌≡◌, refl}
use quietwire.Crypto
use quietwire.Ratchet
use quietwire.Cell
use quietwire.Texts.{codes, ratchet_text, cell_text}

passed_on : ratchet_text (Ratchet.crypto Crypto.kdf) ≡ codes "password key derivation failed"
unfolding ratchet_text
passed_on = refl

abbrev future : Cell.Error
future = Cell.unsupported_version 0x0a

abbrev hops : Cell.Error
hops = Cell.ttl_out_of_range 165

shown : cell_text future ≡ codes "unsupported version 0x0a"
unfolding cell_text
shown = refl

hops_shown : cell_text hops ≡ codes "ttl 165 above 64"
unfolding cell_text
hops_shown = refl
