-- ===== src/Decimal.antt =====
-- Decimal text of `u64`: `Display` and `FromStr` of the standard library, and `str::split`.
pub mod RoundTrip
pub mod Split
use ibc_solo_machine.Base.{
  ℕ, zero, suc, ◌+◌, ◌-◌, ◌*◌, ◌/◌, ◌%◌, ◌^◌, Bool, ◌&&◌, Text, Option, none, some, [], ◌∷◌, leb,
  ltb, ◌==◌, if◌then◌else◌, Result, ok, err, invalid_integer, ◌≡◌, refl, codes,
}

abbrev pub max_u64 : ℕ
max_u64 = 2 ^ 64 - 1

abbrev pub is_digit : ℕ → Bool
is_digit c = leb b'0' c && leb c b'9'

-- The digits of `n` in front of `out`; `n + 1` rounds are enough.
unfoldable pub digits : ℕ → ℕ → Text → Text
digits zero n out = out
digits (suc fuel) n out =
    let more = digits fuel (n / 10) ((b'0' + n % 10) ∷ out) in
    if ltb n 10 then (b'0' + n) ∷ out else more

-- `u64::to_string`
unfoldable pub print_u64 : ℕ → Text
unfolding digits
print_u64 n = digits (suc n) n []

-- Checked multiplication and addition: `none` past `u64::MAX`, and on what is no digit.
unfoldable pub accumulate : ℕ → Text → Option ℕ
accumulate n [] = some n
accumulate n (c ∷ s) =
    let m = n * 10 + (c - b'0') in
    let rest = accumulate m s in if is_digit c && leb m max_u64 then rest else none

unfoldable pub digits_only : Text → Option ℕ
digits_only [] = none
digits_only (c ∷ s) = accumulate 0 (c ∷ s)

-- `str::parse::<u64>`: one leading `+` is accepted.
unfoldable pub parse_u64 : Text → Option ℕ
unfolding accumulate digits_only
parse_u64 [] = none
parse_u64 (c ∷ s) = if c == b'+' then digits_only s else digits_only (c ∷ s)

parse_u64_tests :
    (parse_u64 (codes "18446744073709551615") ≡ some max_u64)
    × (parse_u64 (codes "18446744073709551616") ≡ none)
    × (parse_u64 (codes "+7") ≡ some 7)
    × (parse_u64 (codes "+") ≡ none)
    × (print_u64 1024 ≡ codes "1024")
unfolding parse_u64 print_u64
parse_u64_tests = (refl, refl, refl, refl, refl)
