-- ===== src/Cli/Command.antt =====
-- `Command` of solo-machine/src/command.rs: `run` and `execute`. What the handlers of events print
-- meanwhile is left out.
use ibc_solo_machine.Base.{
  Option, is_some, List, Text, codes, Result, ok, err, panic, external, unwrap, missing_signer,
  missing_db_uri,
}
use ibc_solo_machine.Env.{Env}
use ibc_solo_machine.Crates.{Crates}
use ibc_solo_machine.Cli.{
  OutputType, text, json, line, object, of_text, of_message, error_line, completions, Shell, ◌>>=◌,
  ◌>>◌, lift, require, print,
}
use ibc_solo_machine.Cli.Chains
use ibc_solo_machine.Cli.Transfers

pub data SubCommand : Type 0 where
  chain : Chains.ChainCommand → SubCommand
  gen_completion : SubCommand
  ibc : Transfers.IbcCommand → SubCommand
  init : SubCommand
  -- With the address of the gRPC server.
  start : Text → SubCommand

-- The paths of the signer and of the event handlers are texts.
pub record Command : Type 0 where
  pub db_uri : Option Text
  pub signer : Option Text
  pub handler : List Text
  pub subcommand : SubCommand
  pub output : OutputType

module _ ⦃env : Env⦄ ⦃crates : Crates⦄ where
  -- The database, the event handlers and the signer, in this order.
  unfoldable pub set_up : Command → Shell (Unit {0})
  set_up command = do
    require (is_some command.signer) missing_signer
    require (is_some command.db_uri) missing_db_uri
    db_uri ← lift (unwrap command.db_uri)
    require (crates.connect_db_ok db_uri) external
    require (crates.handlers_ok command.handler) external
    signer ← lift (unwrap command.signer)
    require (crates.signer_ok signer) external

  -- `handle.await`
  abbrev join : Shell (Unit {0})
  join s = require (crates.handlers_done s.world.trace) external s

  unfoldable pub initialized : OutputType → Shell (Unit {0})
  initialized text = print (line (codes "Initialized solo machine!"))
  initialized json = print (object (codes "success") (of_text (codes "Initialized solo machine!")))

  unfoldable pub run_subcommand : SubCommand → Command → Shell (Unit {0})
  run_subcommand (chain subcommand) command = do
    set_up command
    Chains.execute subcommand command.output
    join
  run_subcommand gen_completion command = print completions
  run_subcommand (ibc subcommand) command = do
    set_up command
    Transfers.execute subcommand command.output
    join
  run_subcommand init command = do
    require (is_some command.db_uri) missing_db_uri
    db_uri ← lift (unwrap command.db_uri)
    require (crates.init_db_ok db_uri) external
    require (crates.connect_db_ok db_uri) external
    require (crates.migrations_ok db_uri) external
    initialized command.output
  run_subcommand (start addr) command = do
    set_up command
    require (crates.start_grpc_ok addr) external
    join

  unfoldable pub run : Command → Shell (Unit {0})
  run command = run_subcommand command.subcommand command

  -- An error is printed.
  unfoldable pub report : OutputType → Result (Unit {0}) → Shell (Unit {0})
  report output (ok a) = lift (ok tt)
  report text (err e) = print error_line
  report json (err e) = print (object (codes "error") of_message)
  report output panic = lift panic

  unfoldable pub execute : Command → Shell (Unit {0})
  execute command s = report command.output (run command s).0 (run command s).1
