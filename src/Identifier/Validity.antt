-- ===== src/Identifier/Validity.antt =====
-- What an accepted identifier looks like.
use ibc_solo_machine.Base.{
  ℕ, ◌≤◌, ◌≡◌, ◌∙◌, ap, sym, subst, ◌↔◌, refl, >>=-eq-ok, arith, true, false, Text, [], ◌∷◌, all,
  All, len, length, ok, is_whitespace,
}
use ibc_solo_machine.Identifier.{
  Identifier, is_id_char, max_identifier_len, is_blank, contains, parse, parse_id,
}

abbrev pub IsIdChar : ℕ → Type 0
IsIdChar c = is_id_char c ≡ true

-- Between `min` and 64 characters of the identifier alphabet.
pub record IsValid (min : ℕ) (id : Text) : Type 0 where
  pub alphabet : All IsIdChar id
  pub lower : min ≤ length id
  pub upper : length id ≤ max_identifier_len

pub all-All : (s : Text) → all is_id_char s ≡ true → All IsIdChar s
all-All [] h = tt
all-All (c ∷ s) h = ground (arith, all-All s)

All-all : (s : Text) → All IsIdChar s → all is_id_char s ≡ true
All-all [] h = refl
All-all (c ∷ s) (p, h) = ground (arith, All-all s h)

-- The alphabet is ASCII, so that bytes and characters are as many.
len_ascii : (s : Text) → All IsIdChar s → len s ≡ length s
unfolding is_id_char
len_ascii [] h = refl
len_ascii (c ∷ s) (p, h) = ground (arith, len_ascii s h)

lacks_slash : (s : Text) → All IsIdChar s → contains b'/' s ≡ false
unfolding contains is_id_char
lacks_slash [] h = refl
lacks_slash (c ∷ s) (p, h) = ground (arith, lacks_slash s h)

head_not_blank : (c : ℕ) (s : Text) → IsIdChar c → is_blank (c ∷ s) ≡ false
unfolding is_id_char is_whitespace
head_not_blank c s h = ground arith

parse_sound : (s : Text) (id : Identifier) → parse s ≡ ok id → (id ≡ s) × IsValid 1 s
unfolding parse
parse_sound [] id h = cc
parse_sound (c ∷ s) id h = ground (arith, all-All (c ∷ s), len_ascii (c ∷ s))

pub parse_complete : (s : Text) → IsValid 1 s → parse s ≡ ok s
unfolding parse
parse_complete [] v = absurd (omega (arith, v.lower))
parse_complete (c ∷ s) v = ground (
  arith,
  All-all (c ∷ s) v.alphabet,
  len_ascii (c ∷ s) v.alphabet,
  lacks_slash (c ∷ s) v.alphabet,
  head_not_blank c s,
)

-- Parsing accepts exactly the texts of 1 to 64 characters of the identifier alphabet, and returns
-- the text as it stands.
pub parse_iff : (s id : Text) → (parse s ≡ ok id) ↔ ((id ≡ s) × IsValid 1 s)
parse_iff s id = (parse_sound s id, λ h. parse_complete s h.1 ∙ ap ok (sym h.0))

parse_id_sound : (min : ℕ) (s id : Text) → parse_id min s ≡ ok id → (id ≡ s) × IsValid min s
unfolding parse_id
parse_id_sound min s id h =
    let (a, p, q) = >>=-eq-ok (parse s) _ h in
    let (e, v) = parse_sound s a p in
    let f = len_ascii a (subst (All IsIdChar) (sym e) v.alphabet) in ground (arith, f)

pub parse_id_complete : (min : ℕ) (s : Text) → 1 ≤ min → IsValid min s → parse_id min s ≡ ok s
unfolding parse_id
parse_id_complete min s h v =
    rw (parse_complete s (record { alphabet = v.alphabet; lower = omega arith; upper = v.upper }))
      (ground (arith, len_ascii s v.alphabet))

-- An identifier with a minimal length, of at least 1, is accepted exactly when the text has that
-- many to 64 characters, all of the identifier alphabet; the result is the text as it stands.
pub parse_id_iff :
    (min : ℕ) (s id : Text) → 1 ≤ min → (parse_id min s ≡ ok id) ↔ ((id ≡ s) × IsValid min s)
parse_id_iff min s id h =
    (parse_id_sound min s id, λ k. parse_id_complete min s h k.1 ∙ ap ok (sym k.0))
