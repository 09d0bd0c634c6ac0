-- ===== src/Cli/Handler.antt =====
-- `CliEventHandler` of solo-machine/src/event/cli_event_handler.rs.
use Prim.Native.String.{String}
use ibc_solo_machine.Base.{List, [], ◌∷◌, ◌++◌, Text, codes, unwrap, unwrap_or}
use ibc_solo_machine.Identifier.{ChainId}
use ibc_solo_machine.Chain.{ConnectionDetails}
use ibc_solo_machine.Event.{
  Event, tokens_minted, tokens_burnt, signer_updated, created_solo_machine_client,
  created_tendermint_client, initialized_connection_on_tendermint,
  initialized_connection_on_solo_machine, confirmed_connection_on_tendermint,
  confirmed_connection_on_solo_machine, initialized_channel_on_tendermint,
  initialized_channel_on_solo_machine, confirmed_channel_on_tendermint,
  confirmed_channel_on_solo_machine, close_channel_init_on_solo_machine, connection_established,
  chain_added, warning,
}
use ibc_solo_machine.Env.{Env}
use ibc_solo_machine.Crates.{Crates}
use ibc_solo_machine.Cli.{
  OutputType, text, json, line, blank, table, object, warning_line, of_event, of_message, Shell,
  ◌>>=◌, ◌>>◌, lift, print,
}

-- `add_row`: a title and a value.
abbrev pub row : String → Text → List Text
row title value = codes title ∷ value ∷ []

-- A line that ends in an identifier.
abbrev announce : String → Text → Text
announce words id = codes words ++ (id ++ codes "]")

module _ ⦃env : Env⦄ ⦃crates : Crates⦄ where
  -- A line, an empty line and a table.
  abbrev print_table : String → List (List Text) → Shell (Unit {0})
  print_table words rows = do print (line (codes words)); print blank; print (table rows)

  -- The rows are made after the first two lines are printed.
  abbrev print_established : ChainId → ConnectionDetails → Shell (Unit {0})
  print_established chain_id details = do
    print (line (codes "Connection established!"))
    print blank
    solo_machine_channel_id ← lift (unwrap details.solo_machine_channel_id)
    tendermint_channel_id ← lift (unwrap details.tendermint_channel_id)
    print (
        table (
          row "Chain ID" chain_id.id
          ∷ row "Solo machine client ID" details.solo_machine_client_id
          ∷ row "Tendermint client ID" details.tendermint_client_id
          ∷ row "Solo machine connection ID" details.solo_machine_connection_id
          ∷ row "Tendermint connection ID" details.tendermint_connection_id
          ∷ row "Solo machine channel ID" solo_machine_channel_id
          ∷ row "Tendermint channel ID" tendermint_channel_id
          ∷ []))

  unfoldable pub handle_text_output : Event → Shell (Unit {0})
  handle_text_output (chain_added chain_id) =
      print_table "New chain added!" (row "Chain ID" chain_id.id ∷ [])
  handle_text_output (close_channel_init_on_solo_machine chain_id channel_id) =
      print_table "Chain channel init closed!"
        (row "Chain ID" chain_id ∷ row "Solo Machine Channel Id" channel_id ∷ [])
  handle_text_output (tokens_minted chain_id request_id to_address amount denom hash) =
      print_table "Tokens minted!" (
        row "Chain ID" chain_id.id
        ∷ row "Request ID" (unwrap_or request_id (codes "-"))
        ∷ row "To" to_address
        ∷ row "Amount" (env.u256_to_string amount)
        ∷ row "Denom" denom
        ∷ row "Transaction Hash" hash
        ∷ [])
  handle_text_output (tokens_burnt chain_id request_id from_address amount denom hash) =
      print_table "Tokens burnt!" (
        row "Chain ID" chain_id.id
        ∷ row "Request ID" (unwrap_or request_id (codes "-"))
        ∷ row "From" from_address
        ∷ row "Amount" (env.u256_to_string amount)
        ∷ row "Denom" denom
        ∷ row "Transaction Hash" hash
        ∷ [])
  handle_text_output (signer_updated chain_id old_public_key new_public_key) =
      print_table "Signer updated!" (row "Chain ID" chain_id.id ∷ [])
  handle_text_output (created_solo_machine_client client_id) =
      print
        (line (announce "Created solo machine client on IBC enabled chain [Client ID = " client_id))
  handle_text_output (created_tendermint_client client_id) =
      print (line (announce "Created tendermint client on solo machine [Client ID = " client_id))
  handle_text_output (initialized_connection_on_tendermint connection_id) = print (
      line (announce "Initialized connection on IBC enabled chain [Connection ID = " connection_id))
  handle_text_output (initialized_connection_on_solo_machine connection_id) =
      print
        (line (announce "Initialized connection on solo machine [Connection ID = " connection_id))
  handle_text_output (confirmed_connection_on_tendermint connection_id) =
      print (
        line (announce "Confirmed connection on IBC enabled chain [Connection ID = " connection_id))
  handle_text_output (confirmed_connection_on_solo_machine connection_id) =
      print (line (announce "Confirmed connection on solo machine [Connection ID = " connection_id))
  handle_text_output (initialized_channel_on_tendermint channel_id) =
      print (line (announce "Initialized channel on IBC enabled chain [Channel ID = " channel_id))
  handle_text_output (initialized_channel_on_solo_machine channel_id) =
      print (line (announce "Initialized channel on solo machine [Channel ID = " channel_id))
  handle_text_output (confirmed_channel_on_tendermint channel_id) =
      print (line (announce "Confirmed channel on IBC enabled chain [Channel ID = " channel_id))
  handle_text_output (confirmed_channel_on_solo_machine channel_id) =
      print (line (announce "Confirmed channel on solo machine [Channel ID = " channel_id))
  handle_text_output (connection_established chain_id details) = print_established chain_id details
  handle_text_output warning = print warning_line

  unfoldable pub handle_json_output : Event → Shell (Unit {0})
  handle_json_output warning = print (object (codes "warning") of_message)
  handle_json_output event = print (object (codes "success") (of_event event))

  unfoldable pub handle : OutputType → Event → Shell (Unit {0})
  handle text event = handle_text_output event
  handle json event = handle_json_output event
