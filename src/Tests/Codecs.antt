-- ===== src/Tests/Codecs.antt =====
-- Heights, identifiers and paths.
use ibc_solo_machine.Base.{
  ℕ, ◌<◌, ◌≡◌, ◌↔◌, ◌⊎◌, refl, ok, Text, codes, All, ◌∷◌, ◌++◌, arith, Ordering,
}
use ibc_solo_machine.Decimal.{print_u64}
use ibc_solo_machine.Height.{Height, from_str, to_string, cmp}
use ibc_solo_machine.Height.RoundTrip.{from_str-to_string}
use ibc_solo_machine.Height.Order.{cmp-lt_iff}
use ibc_solo_machine.Identifier.{
  is_id_char, parse, parse_id, version_of, generate_client_id, parse_client_id,
  generate_connection_id, parse_connection_id, generate_channel_id, parse_channel_id,
}
use ibc_solo_machine.Identifier.Validity.{parse_iff, parse_id_iff, IsValid, IsIdChar, all-All}
use ibc_solo_machine.Identifier.Version.{version_of_revision}
use ibc_solo_machine.Identifier.Generate.{
  generate_accepted, IsSuffix, client_id_of, connection_id_of, channel_id_of,
}
use ibc_solo_machine.Path.Keys.{channel_key-injective, packet_commitment_key-injective}

abbrev height : Height
height = record { revision_number = 4; revision_height = 1207 }

from_str-to_string_example : from_str (to_string height) ≡ ok height
from_str-to_string_example =
    from_str-to_string height (record { number = omega arith; height = omega arith })

cmp-lt_iff_example :
    (cmp height (record { revision_number = 5; revision_height = 0 }) ≡ Ordering.lt)
    ↔ ((4 < 5) ⊎ ((◌≡◌ {A = ℕ} 4 5) × (1207 < 0)))
cmp-lt_iff_example = cmp-lt_iff height (record { revision_number = 5; revision_height = 0 })

parse_iff_example :
    (parse (codes "testnet-1") ≡ ok (codes "testnet-1"))
    ↔ ((codes "testnet-1" ≡ codes "testnet-1") × IsValid 1 (codes "testnet-1"))
parse_iff_example = parse_iff (codes "testnet-1") (codes "testnet-1")

parse_id_iff_example :
    (parse_id 8 (codes "channel-0") ≡ ok (codes "channel-0"))
    ↔ ((codes "channel-0" ≡ codes "channel-0") × IsValid 8 (codes "channel-0"))
parse_id_iff_example = parse_id_iff 8 (codes "channel-0") (codes "channel-0") (omega arith)

-- "testnet-12" has the revision 12.
version_of_revision_example : version_of (codes "testnet" ++ 45 ∷ print_u64 12) ≡ 12
version_of_revision_example =
    version_of_revision 116 (codes "estne") 116 12 (ground arith) (ground arith) (omega arith)
      (omega arith)

abbrev suffix : Text
suffix = codes "aB3z"

suffix-IsSuffix : IsSuffix suffix
suffix-IsSuffix = record { alphanumeric = ground arith; four = refl }

generate_accepted_example :
    (generate_client_id suffix ≡ ok (client_id_of suffix))
    × (parse_client_id (client_id_of suffix) ≡ ok (client_id_of suffix))
    × (generate_connection_id suffix ≡ ok (connection_id_of suffix))
    × (parse_connection_id (connection_id_of suffix) ≡ ok (connection_id_of suffix))
    × (generate_channel_id suffix ≡ ok (channel_id_of suffix))
    × (parse_channel_id (channel_id_of suffix) ≡ ok (channel_id_of suffix))
generate_accepted_example = generate_accepted suffix suffix-IsSuffix

transfer-IsIdChar : All IsIdChar (codes "transfer")
unfolding is_id_char
transfer-IsIdChar = all-All (codes "transfer") refl

channel_0-IsIdChar : All IsIdChar (codes "channel-0")
unfolding is_id_char
channel_0-IsIdChar = all-All (codes "channel-0") refl

channel_key-injective_example :
    (codes "transfer" ≡ codes "transfer") × (codes "channel-0" ≡ codes "channel-0")
channel_key-injective_example =
    channel_key-injective (codes "transfer") (codes "transfer") (codes "channel-0")
      (codes "channel-0") transfer-IsIdChar transfer-IsIdChar refl

packet_commitment_key-injective_example :
    (codes "transfer" ≡ codes "transfer")
    × (codes "channel-0" ≡ codes "channel-0")
    × (◌≡◌ {A = ℕ} 7 7)
packet_commitment_key-injective_example =
    packet_commitment_key-injective (codes "transfer") (codes "transfer") (codes "channel-0")
      (codes "channel-0") 7 7 transfer-IsIdChar transfer-IsIdChar channel_0-IsIdChar
      channel_0-IsIdChar (omega arith) (omega arith) refl
