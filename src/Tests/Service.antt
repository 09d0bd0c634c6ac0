-- ===== src/Tests/Service.antt =====
-- Operations of the service in the sample world.
use ibc_solo_machine.Env.{AbciEvent}
use ibc_solo_machine.Base.{
  List, [], ◌∷◌, codes, Text, ok, arith, ℕ, ◌+◌, ◌≤◌, ◌≡◌, refl, ◌⊎◌, true, false, none, some,
  text_eq, is_whitespace, pos,
}
use ibc_solo_machine.Identifier.{
  parse, parse_chain_id, matches_id, is_empty, contains, validate_length, is_id_char,
}
use ibc_solo_machine.Chain.{Chain, RawChain}
use ibc_solo_machine.Exec.{World, transaction, ◌>>=◌, select, execute, now}
use ibc_solo_machine.Exec.Runs.{Runs}
use ibc_solo_machine.Exec.Atomic.{returned}
use ibc_solo_machine.Store.Query.{find_row, update_rows, count_rows}
use ibc_solo_machine.Store.Chains.{
  raw_of_chain, row_id, max_u32, u32_of_i64, chain_of_raw, transpose, get_chain, set_details,
  add_connection_details, next_sequence, update_returning, increment_sequence,
}
use ibc_solo_machine.Store.Chains.Laws.{
  get_chain-add_connection_details, increment_sequence_advances, increment_sequence_exhausted,
  chain_of_raw-raw_of_chain,
}
use ibc_solo_machine.Service.Response.{extract_attribute, extract_from, get_attribute}
use ibc_solo_machine.Service.Response.Attributes.{LastOf, extract_attribute_last}
use ibc_solo_machine.Service.Transfer.{mint_tokens, burn_tokens}
use ibc_solo_machine.Service.Transfer.Outcome.{Accepted, transfers_change_after_acceptance}
use ibc_solo_machine.Service.Connect.{connect}
use ibc_solo_machine.Service.Connect.Atomicity.{connect_is_atomic}
use ibc_solo_machine.Service.Connect.Established.{connect_established_never_returns}
use ibc_solo_machine.Service.Close.{close_channel}
use ibc_solo_machine.Service.Close.Never.{close_channel_never_returns}
use ibc_solo_machine.Tests.Samples.{sample, chain_id, row_at, chain_at, world_at, details}

abbrev connected : World
connected = world_at 9

close_channel_never_returns_example :
    (returned (close_channel ⦃env = sample⦄ chain_id none (codes "memo") connected).0 ≡ false)
    × ((close_channel ⦃env = sample⦄ chain_id none (codes "memo") connected).1.stored
        ≡ connected.stored)
close_channel_never_returns_example =
    close_channel_never_returns ⦃env = sample⦄ chain_id none (codes "memo") connected

connect_is_atomic_example :
    ((returned (connect ⦃env = sample⦄ chain_id none [] false connected).0 ≡ true)
      × ((connect ⦃env = sample⦄ chain_id none [] false connected).1.stored
          ≡ (connect ⦃env = sample⦄ chain_id none [] false connected).1.working))
    ⊎ ((returned (connect ⦃env = sample⦄ chain_id none [] false connected).0 ≡ false)
        × ((connect ⦃env = sample⦄ chain_id none [] false connected).1.stored ≡ connected.stored))
connect_is_atomic_example = connect_is_atomic ⦃env = sample⦄ chain_id none [] false connected

row_found : find_row row_id (codes "testnet-1") connected.stored.chains ≡ some (row_at 9)
unfolding find_row text_eq
row_found = refl

connect_established_never_returns_example :
    (returned (connect ⦃env = sample⦄ chain_id none [] true connected).0 ≡ false)
    × ((connect ⦃env = sample⦄ chain_id none [] true connected).1.stored ≡ connected.stored)
connect_established_never_returns_example =
    connect_established_never_returns ⦃env = sample⦄ chain_id none [] true connected (row_at 9)
      details row_found refl

-- The world after a statement.
abbrev read_at : ℕ → World
read_at n = (get_chain ⦃env = sample⦄ transaction chain_id (world_at n)).1

chain_read :
    Runs
      (get_chain ⦃env = sample⦄ transaction chain_id)
      (world_at 9)
      (some (chain_at 9))
      (read_at 9)
unfolding get_chain ◌>>=◌ select transpose chain_of_raw find_row text_eq parse_chain_id parse
    matches_id is_empty contains validate_length is_id_char u32_of_i64 is_whitespace
chain_read = refl

abbrev advanced : RawChain
advanced = record (row_at 9) { sequence = pos 10; updated_at = pos 1700000000 }

abbrev advanced_chain : Chain
advanced_chain = record (chain_at 9) { sequence = 10; updated_at = pos 1700000000 }

abbrev incremented : World
incremented = (increment_sequence ⦃env = sample⦄ transaction chain_id (read_at 9)).1

chain_incremented :
    Runs
      (increment_sequence ⦃env = sample⦄ transaction chain_id)
      (read_at 9)
      advanced_chain
      incremented
unfolding increment_sequence get_chain ◌>>=◌ select transpose chain_of_raw find_row text_eq
    parse_chain_id parse matches_id is_empty contains validate_length is_id_char u32_of_i64
    is_whitespace now execute update_returning update_rows next_sequence
chain_incremented = refl

increment_sequence_advances_example :
    (advanced_chain.sequence ≡ (chain_at 9).sequence + 1)
    × (advanced_chain.sequence ≤ max_u32)
    × (advanced_chain.packet_sequence ≡ (chain_at 9).packet_sequence)
    × (advanced_chain.connection_details ≡ (chain_at 9).connection_details)
    × (advanced_chain.config ≡ (chain_at 9).config)
increment_sequence_advances_example =
    increment_sequence_advances ⦃env = sample⦄ chain_id (world_at 9) (read_at 9) incremented
      (chain_at 9) advanced_chain chain_read chain_incremented

last_read :
    Runs
      (get_chain ⦃env = sample⦄ transaction chain_id)
      (world_at max_u32)
      (some (chain_at max_u32))
      (read_at max_u32)
unfolding get_chain ◌>>=◌ select transpose chain_of_raw find_row text_eq parse_chain_id parse
    matches_id is_empty contains validate_length is_id_char u32_of_i64 is_whitespace
last_read = refl

increment_sequence_exhausted_example :
    ¬ Runs
      (increment_sequence ⦃env = sample⦄ transaction chain_id)
      (read_at max_u32)
      (chain_at 0)
      (world_at 0)
increment_sequence_exhausted_example =
    increment_sequence_exhausted ⦃env = sample⦄ chain_id (world_at max_u32) (read_at max_u32)
      (world_at 0) (chain_at max_u32) (chain_at 0) last_read refl

abbrev detailed : World
detailed = (add_connection_details ⦃env = sample⦄ transaction chain_id details (world_at 9)).1

details_added :
    Runs
      (add_connection_details ⦃env = sample⦄ transaction chain_id details)
      (world_at 9)
      tt
      detailed
unfolding add_connection_details ◌>>=◌ now execute update_rows count_rows set_details text_eq
details_added = refl

abbrev detailed_chain : Chain
detailed_chain = record (chain_at 9) { updated_at = pos 1700000000 }

abbrev reread : World
reread = (get_chain ⦃env = sample⦄ transaction chain_id detailed).1

details_read :
    Runs (get_chain ⦃env = sample⦄ transaction chain_id) detailed (some detailed_chain) reread
unfolding add_connection_details ◌>>=◌ now execute update_rows count_rows set_details text_eq
    get_chain select transpose chain_of_raw find_row parse_chain_id parse matches_id is_empty
    contains validate_length is_id_char u32_of_i64 is_whitespace
details_read = refl

get_chain-add_connection_details_example :
    (c : Chain) × (some detailed_chain ≡ some c)
    × (c.connection_details ≡ some details)
    × (c.id.id ≡ chain_id.id)
get_chain-add_connection_details_example =
    get_chain-add_connection_details ⦃env = sample⦄ chain_id chain_id details (world_at 9) detailed
      reread tt (some detailed_chain) refl details_added details_read

name_parsed : parse_chain_id chain_id.id ≡ ok chain_id
unfolding parse_chain_id parse matches_id is_empty contains validate_length is_id_char is_whitespace
name_parsed = refl

chain_of_raw-raw_of_chain_example :
    chain_of_raw ⦃env = sample⦄ (raw_of_chain (chain_at 9)) ≡ ok (chain_at 9)
chain_of_raw-raw_of_chain_example =
    chain_of_raw-raw_of_chain ⦃env = sample⦄ (chain_at 9) name_parsed refl (omega arith)
      (omega arith)

-- Two events of a kind, of which the last one counts.
abbrev event : Text → AbciEvent
event value = record {
  kind = codes "create_client";
  attributes = record { key_str = some (codes "client_id"); value_str = some value } ∷ [];
}

abbrev events : List AbciEvent
events = event (codes "06-solomachine-0") ∷ event (codes "06-solomachine-1") ∷ []

attribute_extracted :
    extract_attribute events (codes "create_client") (codes "client_id")
    ≡ ok (codes "06-solomachine-1")
unfolding extract_attribute extract_from get_attribute text_eq
attribute_extracted = refl

extract_attribute_last_example :
    LastOf (codes "create_client") (codes "client_id") (codes "06-solomachine-1") events
extract_attribute_last_example =
    extract_attribute_last events (codes "create_client") (codes "client_id")
      (codes "06-solomachine-1") attribute_extracted

abbrev minted : World
minted = (mint_tokens ⦃env = sample⦄ chain_id none 5 (codes "stake") none [] connected).1

abbrev burnt : World
burnt = (burn_tokens ⦃env = sample⦄ chain_id none 5 (codes "stake") [] connected).1

transfers_change_after_acceptance_example :
    ((minted.stored ≡ connected.stored) ⊎ Accepted ⦃env = sample⦄ connected minted)
    × ((burnt.stored ≡ connected.stored) ⊎ Accepted ⦃env = sample⦄ connected burnt)
transfers_change_after_acceptance_example =
    transfers_change_after_acceptance ⦃env = sample⦄ chain_id none 5 (codes "stake") none []
      connected
