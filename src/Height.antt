-- ===== src/Height.antt =====
-- solo-machine-core/src/ibc/core/ics02_client/height.rs: the trait `IHeight` on `Height`.
pub mod Order
pub mod RoundTrip
use ibc_solo_machine.Base.{
  ℕ, ◌+◌, ◌-◌, Bool, Text, Option, none, some, List, [], ◌∷◌, ◌++◌, leb, ◌==◌, if◌then◌else◌,
  compare, Ordering, Result, ok, err, invalid_height, invalid_integer, ok_or, ◌>>=◌,
}
use ibc_solo_machine.Decimal.{max_u64, print_u64, parse_u64}
use ibc_solo_machine.Decimal.Split.{split}

-- Both fields are `u64`.
pub record Height : Type 0 where
  pub revision_number : ℕ
  pub revision_height : ℕ

abbrev pub new : ℕ → ℕ → Height
new revision_number revision_height = record {
  revision_number = revision_number;
  revision_height = revision_height;
}

abbrev pub zero_height : Height
zero_height = new 0 0

pub is_zero : Height → Bool
is_zero h = h.revision_height == 0

-- `u64::checked_add` and `u64::checked_sub`
abbrev pub checked_add_u64 : ℕ → ℕ → Option ℕ
checked_add_u64 a b = if leb (a + b) max_u64 then some (a + b) else none

abbrev pub checked_sub_u64 : ℕ → ℕ → Option ℕ
checked_sub_u64 a b = if leb b a then some (a - b) else none

with_height : ℕ → Option ℕ → Option Height
with_height n none = none
with_height n (some h) = some (new n h)

unfoldable pub checked_add : Height → ℕ → Option Height
unfolding with_height
checked_add h rhs = with_height h.revision_number (checked_add_u64 h.revision_height rhs)

unfoldable pub checked_sub : Height → ℕ → Option Height
unfolding with_height
checked_sub h rhs = with_height h.revision_number (checked_sub_u64 h.revision_height rhs)

pub cmp : Height → Height → Ordering
cmp a b = elim (compare a.revision_number b.revision_number) [
  | Ordering.eq ↦ compare a.revision_height b.revision_height
  | Ordering.gt ↦ Ordering.gt
  | Ordering.lt ↦ Ordering.lt
]

unfoldable pub to_string : Height → Text
to_string h = print_u64 h.revision_number ++ (b'-' ∷ print_u64 h.revision_height)

from_parts : List Text → Result Height
from_parts (number ∷ height ∷ []) = do
  n ← ok_or (parse_u64 number) invalid_integer
  h ← ok_or (parse_u64 height) invalid_integer
  ok (new n h)
from_parts _ = err invalid_height

unfoldable pub from_str : Text → Result Height
unfolding from_parts
from_str s = from_parts (split b'-' s)
