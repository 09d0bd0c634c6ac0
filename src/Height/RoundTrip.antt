-- ===== src/Height/RoundTrip.antt =====
-- Heights as text.
use ibc_solo_machine.Base.{◌≤◌, Text, [], ◌∷◌, ◌≡◌, arith, All, ok}
use ibc_solo_machine.Decimal.{max_u64, print_u64}
use ibc_solo_machine.Decimal.RoundTrip.{IsDigit, print_u64-All, parse_u64-print_u64}
use ibc_solo_machine.Decimal.Split.{split, Lacks, split-Lacks, split-append}
use ibc_solo_machine.Height.{Height, to_string, from_str}

-- Both fields of the height are 64-bit numbers.
pub record IsU64 (h : Height) : Type 0 where
  pub number : h.revision_number ≤ max_u64
  pub height : h.revision_height ≤ max_u64

pub digits_lack_dash : (s : Text) → All IsDigit s → Lacks b'-' s
digits_lack_dash [] h = tt
digits_lack_dash (c ∷ s) (d, h) = (omega arith, digits_lack_dash s h)

split-to_string :
    (h : Height)
    → split b'-' (to_string h) ≡ print_u64 h.revision_number ∷ print_u64 h.revision_height ∷ []
unfolding to_string
split-to_string h = rw (
  split-append _ _ _ (digits_lack_dash _ (print_u64-All h.revision_number)),
  split-Lacks _ _ (digits_lack_dash _ (print_u64-All h.revision_height)),
)

-- A height whose two fields fit in 64 bits is read back from its text.
pub from_str-to_string : (h : Height) → IsU64 h → from_str (to_string h) ≡ ok h
unfolding from_str
from_str-to_string h v =
    rw (split-to_string h, parse_u64-print_u64 _ v.number, parse_u64-print_u64 _ v.height)
