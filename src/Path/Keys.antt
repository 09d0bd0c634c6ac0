-- ===== src/Path/Keys.antt =====
-- The keys of channels and of packet commitments.
use ibc_solo_machine.Base.{ℕ, ◌≡◌, arith, ◌≤◌, Text, codes, [], ◌∷◌, ◌++◌, All}
use ibc_solo_machine.Decimal.{max_u64, print_u64}
use ibc_solo_machine.Decimal.RoundTrip.{parse_u64-print_u64}
use ibc_solo_machine.Decimal.Split.{Lacks}
use ibc_solo_machine.Identifier.{is_id_char}
use ibc_solo_machine.Identifier.Validity.{IsIdChar}
use ibc_solo_machine.Path.{channel_key, packet_commitment_key}

id-Lacks_slash : (s : Text) → All IsIdChar s → Lacks b'/' s
unfolding is_id_char
id-Lacks_slash [] h = tt
id-Lacks_slash (c ∷ s) (p, h) = (ground arith, id-Lacks_slash s h)

-- Two texts that are cut at their first separator.
cut_at_separator :
    (s t u v : Text)
    → Lacks b'/' s
    → Lacks b'/' t
    → s ++ b'/' ∷ u ≡ t ++ b'/' ∷ v
    → (s ≡ t) × (u ≡ v)
cut_at_separator [] [] u v h k e = ground arith
cut_at_separator [] (d ∷ t) u v h k e = ground arith
cut_at_separator (c ∷ s) [] u v h k e = ground arith
cut_at_separator (c ∷ s) (d ∷ t) u v h k e = ground (arith, cut_at_separator s t u v h.1 k.1)

strip : (p s t : Text) → p ++ s ≡ p ++ t → s ≡ t
strip [] s t e = e
strip (c ∷ p) s t e = strip p s t (cc)

print_u64-injective : (m n : ℕ) → m ≤ max_u64 → n ≤ max_u64 → print_u64 m ≡ print_u64 n → m ≡ n
print_u64-injective m n h k e = cc (parse_u64-print_u64 m h, parse_u64-print_u64 n k)

-- Two ports and channels of the identifier alphabet with one channel key are the same.
pub channel_key-injective :
    (p q c d : Text)
    → All IsIdChar p
    → All IsIdChar q
    → channel_key p c ≡ channel_key q d
    → (p ≡ q) × (c ≡ d)
unfolding channel_key
channel_key-injective p q c d h k e =
    let e' = strip (codes "channelEnds/ports/") _ _ e in
    let (same, rest) = cut_at_separator p q _ _ (id-Lacks_slash p h) (id-Lacks_slash q k) e' in
    (same, strip (codes "channels/") _ _ rest)

-- Two packets of ports and channels of the identifier alphabet, with 64-bit sequences, that have
-- one commitment key have the same port, channel and sequence.
pub packet_commitment_key-injective :
    (p q c d : Text) (m n : ℕ)
    → All IsIdChar p
    → All IsIdChar q
    → All IsIdChar c
    → All IsIdChar d
    → m ≤ max_u64
    → n ≤ max_u64
    → packet_commitment_key p c m ≡ packet_commitment_key q d n
    → (p ≡ q) × (c ≡ d) × (m ≡ n)
unfolding packet_commitment_key
packet_commitment_key-injective p q c d m n hp hq hc hd hm hn e =
    let e' = strip (codes "commitments/ports/") _ _ e in
    let (same, rest) = cut_at_separator p q _ _ (id-Lacks_slash p hp) (id-Lacks_slash q hq) e' in
    let rest' = strip (codes "channels/") _ _ rest in
    let (same', last) =
      cut_at_separator c d _ _ (id-Lacks_slash c hc) (id-Lacks_slash d hd) rest' in
    (same, same', print_u64-injective m n hm hn (strip (codes "sequences/") _ _ last))
