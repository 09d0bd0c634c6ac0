-- ===== src/Cli.antt =====
-- solo-machine/src: the command line. A command runs against the world and the standard output.
pub mod Handler
pub mod Chains
pub mod Transfers
pub mod Registrar
pub mod Command
pub mod Order
pub mod Display
pub mod Fronts
use ibc_solo_machine.Base.{
  ℕ, Bool, Option, none, some, List, [], ◌∷◌, ◌++◌, Text, codes, text_eq, length, if◌then◌else◌,
  Result, ok, err, panic, Error, external, invalid_output_type,
}
use ibc_solo_machine.Identifier.{Identifier}
use ibc_solo_machine.Chain.{Chain}
use ibc_solo_machine.Database.{ChainKey, Operation}
use ibc_solo_machine.Event.{Event}
use ibc_solo_machine.Path.{trim}
use ibc_solo_machine.Crates.{Crates}
use ibc_solo_machine.Exec.{World, Exec}

-- `OutputType`
pub data OutputType : Type 0 where
  text json : OutputType

-- The field `data` of a JSON object that is printed.
pub data Payload : Type 0 where
  of_text : Text → Payload
  of_chain : Chain → Payload
  of_keys : List ChainKey → Payload
  of_balance : Text → Identifier → Payload
  of_operations : List Operation → Payload
  of_event : Event → Payload
  -- The message of a warning or of an error.
  of_message : Payload

-- What one call prints. Styles and colours are left out.
pub data Item : Type 0 where
  line : Text → Item
  blank : Item
  -- The rows of a table; the first one may be its title.
  table : List (List Text) → Item
  -- The fields `result` and `data`.
  object : Text → Payload → Item
  -- `WARNING: ` and the message of a warning; the message of an error; a completion script.
  warning_line error_line completions : Item

-- The items that are printed so far, the first one in front.
pub record Session : Type 0 where
  pub world : World
  pub stdout : List Item

abbrev pub Shell : Type 0 → Type 0
Shell A = Session → Result A × Session

module _ {A B : Type 0} where
  abbrev pub continue_shell : Result A → (A → Shell B) → Session → Result B × Session
  continue_shell (ok a) f s = f a s
  continue_shell (err e) f s = (err e, s)
  continue_shell panic f s = (panic, s)

  infixl 5 ◌>>=◌
  unfoldable pub ◌>>=◌ : Shell A → (A → Shell B) → Shell B
  ◌>>=◌ m f s = continue_shell (m s).0 f (m s).1

infixl 5 ◌>>◌
abbrev pub ◌>>◌ : {B : Type 0} → Shell (Unit {0}) → Shell B → Shell B
m >> n = m >>= λ _. n

module _ {A : Type 0} where
  -- A call of solo-machine-core.
  unfoldable pub core : Exec A → Shell A
  core m s = ((m s.world).0, record s { world = (m s.world).1 })

  unfoldable pub lift : Result A → Shell A
  lift r s = (r, s)

unfoldable pub require : Bool → Error → Shell (Unit {0})
require b e s = (if b then ok tt else err e, s)

module _ ⦃crates : Crates⦄ where
  -- `print_stream`, `print_stdout` of a table, `writeln!` and `print_json`.
  unfoldable pub print : Item → Shell (Unit {0})
  print item s =
      if crates.stdout_ok (length s.stdout)
      then (ok tt, record s { stdout = s.stdout ++ item ∷ [] })
      else (err external, s)

-- `OutputType::from_str`
abbrev output_of : Text → Result OutputType
output_of s =
    if text_eq s (codes "text")
    then ok text
    else (if text_eq s (codes "json") then ok json else err invalid_output_type)

unfoldable pub parse_output : ⦃crates : Crates⦄ → Text → Result OutputType
parse_output ⦃crates⦄ s = output_of (crates.to_lowercase (trim s))

abbrev pub display : OutputType → Text
display text = codes "text"
display json = codes "json"
