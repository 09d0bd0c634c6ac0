-- ===== src/Decimal/RoundTrip.antt =====
-- `u64` numbers, printed and parsed.
use ibc_solo_machine.Base.{
  ℕ, zero, suc, ◌+◌, ◌%◌, ◌/◌, ◌≤◌, ◌<◌, Text, some, [], ◌∷◌, ◌≡◌, ◌∙◌, ◌≢◌, refl, arith, All,
}
use ibc_solo_machine.Decimal.{max_u64, digits, print_u64, accumulate, parse_u64}

abbrev pub IsDigit : ℕ → Type 0
IsDigit c = (b'0' ≤ c) × (c ≤ b'9')

accumulate-digits :
    (f n : ℕ) (out : Text) → n < f → n ≤ max_u64 → accumulate 0 (digits f n out) ≡ accumulate n out
unfolding accumulate digits
accumulate-digits zero n out h fits = absurd (omega arith)
accumulate-digits (suc f) n out h fits =
    ground (arith, accumulate-digits f (n / 10) ((b'0' + n % 10) ∷ out))

pub digits-All : (f n : ℕ) (out : Text) → All IsDigit out → All IsDigit (digits f n out)
unfolding digits
digits-All zero n out h = h
digits-All (suc f) n out h = ground (arith, digits-All f (n / 10) ((b'0' + n % 10) ∷ out))

pub print_u64-All : (n : ℕ) → All IsDigit (print_u64 n)
unfolding print_u64
print_u64-All n = digits-All (suc n) n [] tt

digits-ne-nil : (f n : ℕ) (out : Text) → out ≢ [] → digits f n out ≢ []
unfolding digits
digits-ne-nil zero n out h = h
digits-ne-nil (suc f) n out h = ground (arith, digits-ne-nil f (n / 10) ((b'0' + n % 10) ∷ out))

pub print_u64-ne-nil : (n : ℕ) → print_u64 n ≢ []
unfolding print_u64 digits
print_u64-ne-nil n = ground (arith, digits-ne-nil n (n / 10) ((b'0' + n % 10) ∷ []))

parse-accumulate : (s : Text) → s ≢ [] → All IsDigit s → parse_u64 s ≡ accumulate 0 s
unfolding parse_u64
parse-accumulate [] h k = absurd (h refl)
parse-accumulate (c ∷ s) h k = ground arith

-- Every 64-bit number is read back from its decimal text.
pub parse_u64-print_u64 : (n : ℕ) → n ≤ max_u64 → parse_u64 (print_u64 n) ≡ some n
unfolding print_u64 accumulate
parse_u64-print_u64 n h =
    parse-accumulate _ (print_u64-ne-nil n) (print_u64-All n)
    ∙ accumulate-digits (suc n) n [] (omega arith) h
