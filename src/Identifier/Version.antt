-- ===== src/Identifier/Version.antt =====
-- The revision number of a chain identifier.
use ibc_solo_machine.Base.{
  ℕ, zero, suc, ◌+◌, ◌/◌, ◌%◌, ◌≤◌, ◌<◌, ◌≡◌, ◌≢◌, refl, ap, arith, true, Text, List, some, [], ◌∷◌,
  ◌++◌, all, All, ◌==◌, Bool-cases, inl, inr, append_assoc,
}
use ibc_solo_machine.Decimal.{max_u64, is_digit, digits, print_u64, parse_u64}
use ibc_solo_machine.Decimal.RoundTrip.{IsDigit, print_u64-All, parse_u64-print_u64}
use ibc_solo_machine.Decimal.Split.{split, Lacks, split-Lacks}
use ibc_solo_machine.Height.RoundTrip.{digits_lack_dash}
use ibc_solo_machine.Identifier.{
  is_revision, matches_here, matches_later, matches_chain_id, last?, version_of,
}

all-digits : (s : Text) → All IsDigit s → all is_digit s ≡ true
all-digits [] h = refl
all-digits (c ∷ s) (p, h) = ground (arith, all-digits s h)

digits-is_revision :
    (f n : ℕ) (out : Text) → 0 < n → n < f → All IsDigit out → is_revision (digits f n out) ≡ true
unfolding is_revision digits
digits-is_revision zero n out p h k = absurd (omega arith)
digits-is_revision (suc f) n out p h k =
    ground (arith, all-digits out k, digits-is_revision f (n / 10) ((b'0' + n % 10) ∷ out))

print_u64-is_revision : (n : ℕ) → 0 < n → is_revision (print_u64 n) ≡ true
unfolding print_u64
print_u64-is_revision n h = digits-is_revision (suc n) n [] h (omega arith) tt

matches_later-append :
    (q : Text) (c : ℕ) (v : Text)
    → All (λ d. d ≢ 10) q
    → c ≢ b'-'
    → is_revision v ≡ true
    → matches_later (q ++ c ∷ b'-' ∷ v) ≡ true
unfolding matches_later matches_here
matches_later-append [] c v h k r = ground arith
matches_later-append (d ∷ q) c v h k r = ground (arith, matches_later-append q c v h.1 k r)

-- The text has at least two parts, and the last is the one behind the last separator.
split_tail :
    (s v : Text)
    → Lacks b'-' v
    → (p q : Text) × (ps : List Text) × (split b'-' (s ++ b'-' ∷ v) ≡ p ∷ q ∷ ps)
      × (last? (q ∷ ps) ≡ some v)
unfolding split last?
split_tail [] v h = ([], v, [], ap (λ r. [] ∷ r) (split-Lacks b'-' v h), refl)
split_tail (c ∷ s) v h =
    let (p, q, ps, e, l) = split_tail s v h in
    elim (Bool-cases (c == b'-')) [
      | inl dash ↦ ([], p, q ∷ ps, rw (dash, e), l)
      | inr other ↦ (c ∷ p, q, ps, rw (other, e), l)
    ]

last-split : (s v : Text) → Lacks b'-' v → last? (split b'-' (s ++ b'-' ∷ v)) ≡ some v
unfolding last?
last-split s v h = let (p, q, ps, e, l) = split_tail s v h in rw e l

version_read :
    (s v : Text) (n : ℕ)
    → matches_chain_id s ≡ true
    → last? (split b'-' s) ≡ some v
    → parse_u64 v ≡ some n
    → version_of s ≡ n
unfolding version_of
version_read s v n m l p = rw (m, l, p)

-- A name of two or more characters without a line feed, the last of them no dash, and behind it a
-- dash and a positive 64-bit number: the version is that number.
pub version_of_revision :
    (d : ℕ) (name : Text) (c n : ℕ)
    → All (λ a. a ≢ 10) (d ∷ name)
    → c ≢ b'-'
    → 0 < n
    → n ≤ max_u64
    → version_of ((d ∷ name) ++ c ∷ b'-' ∷ print_u64 n) ≡ n
unfolding matches_chain_id
version_of_revision d name c n h k p fits =
    let lacks = digits_lack_dash _ (print_u64-All n) in
    let l = last-split ((d ∷ name) ++ c ∷ []) (print_u64 n) lacks in
    version_read _ (print_u64 n) n
      (ground (arith, matches_later-append name c (print_u64 n) h.1 k (print_u64-is_revision n p)))
      (rw append_assoc at l) (parse_u64-print_u64 n fits)
