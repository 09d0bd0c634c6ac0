-- ===== src/Tests/Worlds.antt =====
-- Histories, and the table of payloads, from small worlds.
use ibc_solo_machine.Base.{
  ◌+◌, [], ◌∷◌, codes, none, some, true, ◌≡◌, refl, text_eq, arith, is_whitespace,
}
use ibc_solo_machine.Chain.{Chain, RawChain}
use ibc_solo_machine.Identifier.{
  parse, parse_chain_id, matches_id, is_empty, contains, validate_length, is_id_char,
}
use ibc_solo_machine.Database.{empty}
use ibc_solo_machine.Exec.{
  World, transaction, ◌>>=◌, http_client, call, begin, now, execute, commit, lift, notify_event,
  or_raise, pure, require,
}
use ibc_solo_machine.Exec.Runs.{Runs}
use ibc_solo_machine.Store.Query.{find_row}
use ibc_solo_machine.Store.Chains.{row_id, increment_sequence, add_chain, insert_chain}
use ibc_solo_machine.Store.Chains.Progress.{increment_sequence_returns}
use ibc_solo_machine.Store.IbcData.{add, update, get}
use ibc_solo_machine.Store.IbcData.PayloadMap.{put_new, replace, look_up, view}
use ibc_solo_machine.Store.IbcData.Refinement.{seen, ibc_data_refines_map}
use ibc_solo_machine.Service.Connect.{connect}
use ibc_solo_machine.Service.Close.{close_channel}
use ibc_solo_machine.Service.Signer
use ibc_solo_machine.Service.Signer.Added.{Added, add_stores}
use ibc_solo_machine.Store.ChainKeys.{has_key, add_chain_key, insert_chain_key}
use ibc_solo_machine.Invariant.Worlds.{Valid}
use ibc_solo_machine.Invariant.Registered.{Registered, registration_lasts}
use ibc_solo_machine.Invariant.Tables.{WellFormed, WellFormed-empty, Forward-refl, Later}
use ibc_solo_machine.Invariant.History.{
  History, starts, continues, adds, connects, closes, dropped, History-Later,
}
use ibc_solo_machine.Invariant.Details.{Complete}
use ibc_solo_machine.Invariant.Channels.{History-Complete}
use ibc_solo_machine.Tests.Samples.{sample, config, chain_id, row_at, world_at, database_at}

abbrev pub nothing : World
nothing = record { stored = empty; working = empty; trace = [] }

-- A chain is added, and its channel is closed.
abbrev pub added : World
added = dropped (Signer.add ⦃env = sample⦄ config (codes "02") nothing).1

added_run :
    Runs
      (Signer.add ⦃env = sample⦄ config (codes "02"))
      nothing
      chain_id
      (Signer.add ⦃env = sample⦄ config (codes "02") nothing).1
unfolding Signer.add ◌>>=◌ http_client call parse_chain_id parse is_whitespace is_id_char begin
    add_chain now execute insert_chain find_row add_chain_key insert_chain_key has_key commit
    text_eq lift notify_event or_raise pure require contains is_empty matches_id validate_length
added_run = refl

add_stores_example :
    Added ⦃env = sample⦄ config
      (codes "02")
      nothing
      (Signer.add ⦃env = sample⦄ config (codes "02") nothing).1
      chain_id
add_stores_example =
    add_stores ⦃env = sample⦄ config (codes "02") nothing chain_id
      (Signer.add ⦃env = sample⦄ config (codes "02") nothing).1 added_run

abbrev pub closed : World
closed = dropped (close_channel ⦃env = sample⦄ chain_id none (codes "memo") added).1

pub added_then_closed : History ⦃env = sample⦄ nothing closed
added_then_closed =
    continues (continues starts (adds config (codes "02"))) (closes chain_id none (codes "memo"))

nothing-Valid : Valid nothing
nothing-Valid = record {
  stored = WellFormed-empty;
  working = WellFormed-empty;
  ahead = Forward-refl empty;
}

registration_lasts_example :
    (row : RawChain) × (find_row row_id (codes "testnet-1") closed.stored.chains ≡ some row)
    × Registered config row
    × (has_key (codes "testnet-1") (codes "02") closed.stored.chain_keys ≡ true)
registration_lasts_example =
    registration_lasts ⦃env = sample⦄ config (codes "02") nothing chain_id
      (Signer.add ⦃env = sample⦄ config (codes "02") nothing).1 closed nothing-Valid added_run
      (continues starts (closes chain_id none (codes "memo")))

History-Complete_example : Complete closed.stored
History-Complete_example =
    History-Complete ⦃env = sample⦄ nothing closed refl refl added_then_closed

database-WellFormed : WellFormed (database_at 9)
unfolding find_row
database-WellFormed = record {
  chains = (refl, tt);
  ibc_data = tt;
  chain_keys = tt;
  chain_key_ids = tt;
  operation_ids = tt;
}

abbrev connecting : World
connecting = dropped (connect ⦃env = sample⦄ chain_id none (codes "memo") true (world_at 9)).1

row_found : find_row row_id (codes "testnet-1") (world_at 9).stored.chains ≡ some (row_at 9)
unfolding find_row text_eq
row_found = refl

History-Later_example :
    (row : RawChain) × (find_row row_id (codes "testnet-1") connecting.stored.chains ≡ some row)
    × Later (row_at 9) row
History-Later_example =
    History-Later ⦃env = sample⦄ (world_at 9) connecting (codes "testnet-1") (row_at 9)
      (record {
        stored = database-WellFormed;
        working = database-WellFormed;
        ahead = Forward-refl (database_at 9);
      })
      (continues starts (connects chain_id none (codes "memo") true)) row_found

increment_sequence_returns_example :
    (c : Chain) × (v : World) × Runs
      (increment_sequence ⦃env = sample⦄ transaction chain_id)
      (world_at 9)
      c
      v
    × (c.sequence ≡ 9 + 1)
unfolding parse parse_chain_id matches_id is_empty contains validate_length is_id_char is_whitespace
increment_sequence_returns_example =
    increment_sequence_returns ⦃env = sample⦄ chain_id (world_at 9) (row_at 9) 9 3 refl row_found
      (record {
        key = chain_id;
        node_id = codes "node";
        parses = refl;
        parses_node = refl;
        sequence = refl;
        packet_sequence = refl;
        packet_bound = omega arith;
      })
      (omega arith)

-- One path is taken.
abbrev one_path : World
one_path = record nothing {
  working = record empty { ibc_data = record { path = codes "a"; payload = [] } ∷ [] };
}

ibc_data_refines_map_example :
    (seen ⦃env = sample⦄ (add ⦃env = sample⦄ transaction (codes "b") (1 ∷ []) one_path)
      ≡ put_new (codes "b") (1 ∷ []) (view one_path.working))
    × (seen ⦃env = sample⦄ (update ⦃env = sample⦄ transaction (codes "b") (1 ∷ []) one_path)
        ≡ replace (codes "b") (1 ∷ []) (view one_path.working))
    × (seen ⦃env = sample⦄ (get ⦃env = sample⦄ some transaction (codes "b") one_path)
        ≡ (look_up some (codes "b") (view one_path.working), view one_path.working))
unfolding find_row
ibc_data_refines_map_example =
    ibc_data_refines_map ⦃env = sample⦄ some (codes "b") (1 ∷ []) one_path (refl, tt)
