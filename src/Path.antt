-- ===== src/Path.antt =====
-- solo-machine-core/src/ibc/core/ics24_host/path.rs: key paths and the keys of the store. The
-- newtypes of the macro `impl_path!` are the `KeyPath` that they wrap, and its `with_prefix` is
-- `apply_prefix`.
pub mod Keys
use ibc_solo_machine.Base.{
  ℕ, Bool, true, false, not, Text, codes, is_whitespace, Option, List, [], ◌∷◌, ◌++◌, map, ◌==◌,
  if◌then◌else◌, length, get_elem?, all, Result, ok, err, ensure, empty_prefix, ◌>>=◌, ◌>>◌,
}
use mathlib.Core.List.{reverse}
use ibc_solo_machine.Decimal.{print_u64}
use ibc_solo_machine.Height
use ibc_solo_machine.Height.{Height}
use ibc_solo_machine.Identifier.{Identifier, ClientId, ConnectionId, ChannelId, PortId}

-- `Path`, around the key path of a `MerklePath`.
pub record KeyPath : Type 0 where
  pub key_path : List Text

unfoldable pub new_from_str : Text → KeyPath
new_from_str key_path = record { key_path = key_path ∷ [] }

-- `str::trim`
trim_start : Text → Text
trim_start [] = []
trim_start (c ∷ s) = let rest = trim_start s in if is_whitespace c then rest else c ∷ s

unfoldable pub trim : Text → Text
unfolding trim_start
trim s = reverse (trim_start (reverse (trim_start s)))

unfoldable pub apply_prefix : Text → KeyPath → Result KeyPath
apply_prefix prefix path = do
  ensure (not (all is_whitespace prefix)) empty_prefix
  ok (record { key_path = trim prefix ∷ path.key_path })

abbrev pub get_key : KeyPath → ℕ → Option Text
get_key path index = get_elem? path.key_path index

abbrev pub len : KeyPath → ℕ
len path = length path.key_path

abbrev pub is_empty : KeyPath → Bool
is_empty path = len path == 0

-- The keys, the texts that `new` of each path formats.
unfoldable pub client_type_key : ClientId → Text
client_type_key client_id = codes "clients/" ++ (client_id ++ codes "/clientType")

unfoldable pub client_state_key : ClientId → Text
client_state_key client_id = codes "clients/" ++ (client_id ++ codes "/clientState")

unfoldable pub consensus_state_key : ClientId → Height → Text
consensus_state_key client_id height =
    codes "clients/" ++ (client_id ++ (codes "/consensusStates/" ++ Height.to_string height))

unfoldable pub connection_key : ConnectionId → Text
connection_key connection_id = codes "connections/" ++ connection_id

unfoldable pub channel_key : PortId → ChannelId → Text
channel_key port_id channel_id =
    codes "channelEnds/ports/" ++ (port_id ++ (codes "/channels/" ++ channel_id))

unfoldable pub packet_commitment_key : PortId → ChannelId → ℕ → Text
packet_commitment_key port_id channel_id packet_sequence =
    codes "commitments/ports/"
    ++ (port_id
        ++ (codes "/channels/"
            ++ (channel_id ++ (codes "/sequences/" ++ print_u64 packet_sequence))))

unfoldable pub packet_acknowledgement_key : PortId → ChannelId → ℕ → Text
packet_acknowledgement_key port_id channel_id packet_sequence =
    codes "acks/ports/"
    ++ (port_id
        ++ (codes "/channels/"
            ++ (channel_id ++ (codes "/sequences/" ++ print_u64 packet_sequence))))

unfoldable pub denom_trace_key : PortId → ChannelId → Identifier → Text
denom_trace_key port_id channel_id denom = port_id ++ (b'/' ∷ (channel_id ++ (b'/' ∷ denom)))
