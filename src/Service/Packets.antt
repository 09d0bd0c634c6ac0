-- ===== src/Service/Packets.antt =====
-- `extract_packets`. A `HashMap` is the list of its insertions, the latest first; the keys that are
-- removed from it are distinct, so that a removal is a look-up.
use ibc_solo_machine.Base.{
  ℕ, List, [], ◌∷◌, Option, none, some, Text, codes, text_eq, if◌then◌else◌, Result, ok, ok_or,
  ◌>>=◌, external, missing_packet_attribute, invalid_packet_attribute,
}
use ibc_solo_machine.Decimal.{parse_u64}
use ibc_solo_machine.Height
use ibc_solo_machine.Messages.{Packet}
use ibc_solo_machine.Env.{Env, AbciEvent, EventAttribute, TxCommitResponse}

abbrev pub Attributes : Type 0
Attributes = List (Text × Text)

unfoldable pub lookup : Text → Attributes → Option Text
lookup key [] = none
lookup key ((k, v) ∷ rest) = if text_eq k key then some v else lookup key rest

unfoldable pub collect_attributes : List EventAttribute → Attributes → Result Attributes
collect_attributes [] map = ok map
collect_attributes (tag ∷ tags) map = do
  key ← ok_or tag.key_str external
  value ← ok_or tag.value_str external
  collect_attributes tags ((key, value) ∷ map)

unfoldable pub remove : Text → Attributes → Result Text
remove key map = ok_or (lookup key map) missing_packet_attribute

-- `parse().context(…)` of a number.
abbrev number : Text → Result ℕ
number text = ok_or (parse_u64 text) invalid_packet_attribute

module _ ⦃env : Env⦄ where
  unfoldable pub packet_of : Attributes → Result Packet
  packet_of map = do
    sequence_text ← remove (codes "packet_sequence") map
    sequence ← number sequence_text
    source_port ← remove (codes "packet_src_port") map
    source_channel ← remove (codes "packet_src_channel") map
    destination_port ← remove (codes "packet_dst_port") map
    destination_channel ← remove (codes "packet_dst_channel") map
    data_hex ← remove (codes "packet_data_hex") map
    payload ← ok_or (env.hex_decode data_hex) external
    height_text ← remove (codes "packet_timeout_height") map
    timeout_height ← Height.from_str height_text
    timestamp_text ← remove (codes "packet_timeout_timestamp") map
    timeout_timestamp ← number timestamp_text
    ok (record {
      sequence = sequence;
      source_port = source_port;
      source_channel = source_channel;
      destination_port = destination_port;
      destination_channel = destination_channel;
      payload = payload;
      timeout_height = some timeout_height;
      timeout_timestamp = timeout_timestamp;
    })

  unfoldable pub packets_of : List AbciEvent → Result (List Packet)
  packets_of [] = ok []
  packets_of (event ∷ events) =
      let taken = (do
        map ← collect_attributes event.attributes []
        packet ← packet_of map
        packets ← packets_of events
        ok (packet ∷ packets)) in
      let skipped = packets_of events in
      if text_eq event.kind (codes "send_packet") then taken else skipped

  unfoldable pub extract_packets : TxCommitResponse → Result (List Packet)
  extract_packets response = packets_of response.tx_result_events
