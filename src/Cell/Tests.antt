-- ===== src/Cell/Tests.antt =====
-- The theorems about cells, applied to a sample cell.
use quietwire.Base.{
  ◌-◌, ◌≡◌, ◌≤◌, ◌<◌, ◌⊎◌, ◌++◌, refl, none, some, arith, length, drop, ◌∷◌, replicate,
}
use quietwire.Base.{ok}
use quietwire.Bytes.{slice}
use quietwire.Cell.{Cell512, from_bytes, to_bytes, aad, aad_len}
use quietwire.Cell.Wire.{IsCell, from_bytes-to_bytes}
use quietwire.Cell.Parse.{Parsed, from_bytes-Parsed}
use quietwire.Cell.Relay.{
  with_hops, aad-wire, forwarded_times, forwarded_times-ttl, forwarded_times-wire,
}

abbrev sample : Cell512
sample = record {
  header = record { flags = 170; tag = replicate 16 1; nonce = replicate 24 2 };
  hops = record { ttl = 3; copies = 2 };
  body = record { ciphertext = replicate 452 3; mac = replicate 16 4 };
}

sample-IsCell : IsCell sample
sample-IsCell = record {
  tag_size = refl;
  nonce_size = refl;
  ciphertext_size = refl;
  mac_size = refl;
  ttl_bound = omega arith;
  copies_bound = omega arith;
}

from_bytes-to_bytes_example : from_bytes (to_bytes sample) ≡ ok sample
from_bytes-to_bytes_example = from_bytes-to_bytes sample sample-IsCell

from_bytes-Parsed_example : Parsed (to_bytes sample) (from_bytes (to_bytes sample))
from_bytes-Parsed_example = from_bytes-Parsed (to_bytes sample)

aad-wire_example :
    (aad sample ≡ slice 0 2 (to_bytes sample) ++ slice 4 44 (to_bytes sample))
    × (length (aad sample) ≡ aad_len)
aad-wire_example = aad-wire sample sample-IsCell

forwarded_times-ttl_example :
    ((3 < 2) × (forwarded_times 2 sample ≡ none))
    ⊎ ((2 ≤ 3)
        × (forwarded_times 2 sample ≡ some (with_hops sample (record { ttl = 3 - 2; copies = 2 }))))
forwarded_times-ttl_example = forwarded_times-ttl 2 sample

forwarded_times-wire_example :
    (c' : Cell512) × (forwarded_times 2 sample ≡ some c')
    × (from_bytes (to_bytes c') ≡ ok c')
    × (to_bytes c' ≡ slice 0 2 (to_bytes sample) ++ ((3 - 2) ∷ drop 3 (to_bytes sample)))
    × (aad c' ≡ aad sample)
forwarded_times-wire_example = forwarded_times-wire 2 sample sample-IsCell (omega arith)
