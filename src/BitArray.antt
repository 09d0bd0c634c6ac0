-- ===== src/BitArray.antt =====
-- solo-machine-core/src/cosmos/bit_array.rs: the trait `BitArray` on `CompactBitArray`. A
-- subtraction below 0 and an index out of bounds panic.
pub mod Count
use ibc_solo_machine.Base.{
  ℕ, zero, suc, ◌+◌, ◌-◌, ◌*◌, ◌/◌, ◌%◌, ◌^◌, Bool, true, false, List, [], ◌∷◌, Option, none, some,
  length, get_elem?, ltb, leb, ◌==◌, if◌then◌else◌, Bytes, Result, ok, err, panic, unwrap, ◌>>=◌,
}

-- `elems` holds bytes, `extra_bits_stored` is a `u32`.
pub record CompactBitArray : Type 0 where
  pub extra_bits_stored : ℕ
  pub elems : Bytes

unfoldable pub len : CompactBitArray → Result ℕ
len bits =
    if bits.extra_bits_stored == 0
    then ok (length bits.elems * 8)
    else if length bits.elems == 0
    then panic
    else ok ((length bits.elems - 1) * 8 + bits.extra_bits_stored)

pub is_empty : CompactBitArray → Result Bool
unfolding len
is_empty bits = do n ← len bits; ok (n == 0)

-- `elem & (MASK >> k) > 0`: bit `7 - k` of the byte.
abbrev pub bit : ℕ → ℕ → Bool
bit elem k = (elem / 2 ^ (7 - k)) % 2 == 1

unfoldable pub get : CompactBitArray → ℕ → Result Bool
unfolding len
get bits index = do
  n ← len bits
  if leb n index
      then ok false
      else do elem ← unwrap (get_elem? bits.elems (index / 8)); ok (bit elem (index % 8))

abbrev pub bool_to_nat : Bool → ℕ
bool_to_nat true = 1
bool_to_nat false = 0

-- The rounds of the loop with the index from `i` on.
unfoldable pub count_from : CompactBitArray → ℕ → ℕ → ℕ → Result ℕ
count_from bits i zero n = ok n
count_from bits i (suc rounds) n = do
  set ← get bits i
  count_from bits (i + 1) rounds (n + bool_to_nat set)

unfoldable pub num_true_bits_before : CompactBitArray → ℕ → Result ℕ
unfolding count_from
num_true_bits_before bits index = count_from bits 0 index 0
