-- ===== src/Identifier.antt =====
-- solo-machine-core/src/ibc/core/ics24_host/identifier.rs: identifiers and chain identifiers. The
-- newtypes `ClientId`, `ConnectionId`, `ChannelId` and `PortId` of the macro `impl_id!` are texts.
pub mod Validity
pub mod Version
pub mod Generate
use ibc_solo_machine.Base.{
  ℕ, ◌≤◌, Bool, true, false, not, ◌&&◌, ◌||◌, Text, codes, len, is_whitespace, Option, none, some,
  List, [], ◌∷◌, ◌++◌, leb, ◌==◌, if◌then◌else◌, all, is_some, Result, ok, err, ensure,
  unwrap_result, ◌>>=◌, ◌>>◌, blank_identifier, separator_in_identifier, invalid_identifier,
  invalid_length,
}
use ibc_solo_machine.Decimal.{is_digit, parse_u64}
use ibc_solo_machine.Decimal.Split.{split}

abbrev pub max_identifier_len : ℕ
max_identifier_len = 64

-- A value of `Identifier` is the text that it wraps.
abbrev pub Identifier : Type 0
Identifier = Text

abbrev pub ClientId : Type 0
ClientId = Identifier

abbrev pub ConnectionId : Type 0
ConnectionId = Identifier

abbrev pub ChannelId : Type 0
ChannelId = Identifier

abbrev pub PortId : Type 0
PortId = Identifier

-- The class of the pattern `^[a-zA-Z0-9\._\+\-\#\[\]<>]+$`.
unfoldable pub is_id_char : ℕ → Bool
is_id_char c =
    (leb b'a' c && leb c b'z')
    || (leb b'A' c && leb c b'Z')
    || is_digit c
    || c == b'.'
    || c == b'_'
    || c == b'+'
    || c == b'-'
    || c == b'#'
    || c == b'['
    || c == b']'
    || c == b'<'
    || c == b'>'

unfoldable pub is_empty : Text → Bool
is_empty [] = true
is_empty (c ∷ s) = false

unfoldable pub matches_id : Text → Bool
unfolding is_empty
matches_id s = not (is_empty s) && all is_id_char s

-- `s.trim().is_empty()`
abbrev is_blank : Text → Bool
is_blank s = all is_whitespace s

-- `s.contains(c)`
unfoldable pub contains : ℕ → Text → Bool
contains c [] = false
contains c (d ∷ s) = d == c || contains c s

unfoldable pub validate_length : Text → ℕ → ℕ → Result (Unit {0})
validate_length id min max = ensure (leb min (len id) && leb (len id) max) invalid_length

-- `Identifier::from_str`
unfoldable pub parse : Text → Result Identifier
unfolding matches_id contains validate_length
parse s = do
  ensure (not (is_blank s)) blank_identifier
  ensure (not (contains b'/' s)) separator_in_identifier
  ensure (matches_id s) invalid_identifier
  validate_length s 1 max_identifier_len
  ok s

-- `from_str` of the macro `impl_id!`, at its minimal length.
unfoldable pub parse_id : ℕ → Text → Result Identifier
unfolding validate_length
parse_id min_len s = do id ← parse s; validate_length id min_len max_identifier_len; ok id

unfoldable pub parse_client_id : Text → Result ClientId
unfolding parse_id
parse_client_id = parse_id 9

unfoldable pub parse_connection_id : Text → Result ConnectionId
unfolding parse_id
parse_connection_id = parse_id 10

unfoldable pub parse_channel_id : Text → Result ChannelId
unfolding parse_id
parse_channel_id = parse_id 8

unfoldable pub parse_port_id : Text → Result PortId
unfolding parse_id
parse_port_id = parse_id 2

-- `Identifier::generate`; the random suffix is an argument.
pub generate : Text → Text → Result Identifier
generate prefix suffix = parse (prefix ++ (b'-' ∷ suffix))

-- `ClientId::generate(ClientType::Tendermint)`, `ConnectionId::generate`, `ChannelId::generate`.
unfoldable pub generate_client_id : Text → Result ClientId
unfolding generate
generate_client_id suffix = unwrap_result (generate (codes "07-tendermint") suffix)

unfoldable pub generate_connection_id : Text → Result ConnectionId
unfolding generate
generate_connection_id suffix = unwrap_result (generate (codes "connection") suffix)

unfoldable pub generate_channel_id : Text → Result ChannelId
unfolding generate
generate_channel_id suffix = unwrap_result (generate (codes "channel") suffix)

pub record ChainId : Type 0 where
  pub id : Identifier
  pub version : ℕ

-- `[1-9][0-9]*$`
pub is_revision : Text → Bool
is_revision [] = false
is_revision (c ∷ s) = leb b'1' c && leb c b'9' && all is_digit s

-- `[^-]-{1}[1-9][0-9]*$` at this place.
pub matches_here : Text → Bool
unfolding is_revision
matches_here (c ∷ d ∷ s) = not (c == b'-') && d == b'-' && is_revision s
matches_here _ = false

-- The same at this place, or behind some characters that `.` matches, all but a line feed.
pub matches_later : Text → Bool
matches_later [] = false
matches_later (c ∷ s) = matches_here (c ∷ s) || (not (c == 10) && matches_later s)

-- The pattern `^.+[^-]-{1}[1-9][0-9]*$`.
pub matches_chain_id : Text → Bool
matches_chain_id [] = false
matches_chain_id (c ∷ s) = not (c == 10) && matches_later s

last? : List Text → Option Text
last? [] = none
last? (p ∷ []) = some p
last? (p ∷ q ∷ ps) = last? (q ∷ ps)

abbrev or_zero : Option ℕ → ℕ
or_zero none = 0
or_zero (some n) = n

-- `split.last().map(|v| v.parse().unwrap_or(0)).unwrap_or(0)`
last_number : Option Text → ℕ
last_number none = 0
last_number (some v) = or_zero (parse_u64 v)

pub version_of : Text → ℕ
unfolding last? last_number
version_of id = if matches_chain_id id then last_number (last? (split b'-' id)) else 0

-- `ChainId::from_str`
unfoldable pub parse_chain_id : Text → Result ChainId
unfolding validate_length
parse_chain_id s = do
  id ← parse s
  validate_length id 1 max_identifier_len
  ok (record { id = id; version = version_of id })
