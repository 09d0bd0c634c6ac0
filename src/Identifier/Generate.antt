-- ===== src/Identifier/Generate.antt =====
-- Generated identifiers.
use ibc_solo_machine.Base.{
  ℕ, ◌+◌, ◌≤◌, ◌≡◌, refl, arith, true, ◌||◌, ◌&&◌, Text, [], ◌∷◌, ◌++◌, leb, All, All-append,
  length, length-append, codes, ok,
}
use ibc_solo_machine.Decimal.{is_digit}
use ibc_solo_machine.Identifier.{
  is_id_char, parse_client_id, parse_connection_id, parse_channel_id, generate_client_id,
  generate_connection_id, generate_channel_id,
}
use ibc_solo_machine.Identifier.Validity.{IsIdChar, IsValid, parse_complete, parse_id_complete}

-- What `rand::distr::Alphanumeric` samples.
abbrev pub IsAlphanumeric : ℕ → Type 0
IsAlphanumeric c = ((leb b'a' c && leb c b'z') || (leb b'A' c && leb c b'Z') || is_digit c) ≡ true

-- A sample of four characters.
pub record IsSuffix (s : Text) : Type 0 where
  pub alphanumeric : All IsAlphanumeric s
  pub four : length s ≡ 4

alphanumeric-IsIdChar : (c : ℕ) → IsAlphanumeric c → IsIdChar c
unfolding is_id_char
alphanumeric-IsIdChar c h = ground arith

suffix-alphabet : (s : Text) → All IsAlphanumeric s → All IsIdChar s
suffix-alphabet [] h = tt
suffix-alphabet (c ∷ s) (p, h) = (alphanumeric-IsIdChar c p, suffix-alphabet s h)

dash-IsIdChar : IsIdChar b'-'
unfolding is_id_char
dash-IsIdChar = refl

generated-IsValid :
    (prefix suffix : Text) (n : ℕ)
    → All IsIdChar prefix
    → length prefix ≡ n
    → n ≤ 13
    → IsSuffix suffix
    → IsValid (n + 5) (prefix ++ (b'-' ∷ suffix))
generated-IsValid prefix suffix n h len small v = record {
  alphabet =
      All-append IsIdChar prefix (b'-' ∷ suffix) h
        (dash-IsIdChar, suffix-alphabet suffix v.alphanumeric);
  lower = omega (arith, length-append {0} prefix (b'-' ∷ suffix), v.four);
  upper = omega (arith, length-append {0} prefix (b'-' ∷ suffix), v.four);
}

weaken : {m n : ℕ} {s : Text} → m ≤ n → IsValid n s → IsValid m s
weaken h v = record { alphabet = v.alphabet; lower = omega (arith, v.lower); upper = v.upper }

abbrev pub client_id_of : Text → Text
client_id_of suffix = codes "07-tendermint" ++ (b'-' ∷ suffix)

abbrev pub connection_id_of : Text → Text
connection_id_of suffix = codes "connection" ++ (b'-' ∷ suffix)

abbrev pub channel_id_of : Text → Text
channel_id_of suffix = codes "channel" ++ (b'-' ∷ suffix)

client-IsValid : (s : Text) → IsSuffix s → IsValid 18 (client_id_of s)
unfolding is_id_char
client-IsValid s v =
    generated-IsValid (codes "07-tendermint") s 13 (ground arith) refl (omega arith) v

connection-IsValid : (s : Text) → IsSuffix s → IsValid 15 (connection_id_of s)
unfolding is_id_char
connection-IsValid s v =
    generated-IsValid (codes "connection") s 10 (ground arith) refl (omega arith) v

channel-IsValid : (s : Text) → IsSuffix s → IsValid 12 (channel_id_of s)
unfolding is_id_char
channel-IsValid s v = generated-IsValid (codes "channel") s 7 (ground arith) refl (omega arith) v

-- With a suffix of four alphanumeric characters the `unwrap` in `generate` does not panic: the
-- identifier is the prefix, a dash and the suffix, and the parser of its kind accepts it unchanged.
pub generate_accepted :
    (s : Text)
    → IsSuffix s
    → (generate_client_id s ≡ ok (client_id_of s))
      × (parse_client_id (client_id_of s) ≡ ok (client_id_of s))
      × (generate_connection_id s ≡ ok (connection_id_of s))
      × (parse_connection_id (connection_id_of s) ≡ ok (connection_id_of s))
      × (generate_channel_id s ≡ ok (channel_id_of s))
      × (parse_channel_id (channel_id_of s) ≡ ok (channel_id_of s))
unfolding generate_client_id generate_connection_id generate_channel_id parse_client_id
    parse_connection_id parse_channel_id
generate_accepted s v = (
  rw (parse_complete _ (weaken (omega arith) (client-IsValid s v))),
  parse_id_complete 9 _ (omega arith) (weaken (omega arith) (client-IsValid s v)),
  rw (parse_complete _ (weaken (omega arith) (connection-IsValid s v))),
  parse_id_complete 10 _ (omega arith) (weaken (omega arith) (connection-IsValid s v)),
  rw (parse_complete _ (weaken (omega arith) (channel-IsValid s v))),
  parse_id_complete 8 _ (omega arith) (weaken (omega arith) (channel-IsValid s v)),
)
