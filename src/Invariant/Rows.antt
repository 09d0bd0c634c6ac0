-- ===== src/Invariant/Rows.antt =====
-- Rows with a key: what insertions and updates do to distinct keys, and to the rows that are found.
use ibc_solo_machine.Base.{
  ℕ, ◌<◌, Bool, true, false, none, some, List, [], ◌∷◌, Text, text_eq, is_some, ◌≡◌, refl, ◌∙◌,
  arith, if◌then◌else◌, Bool-cases, Option-cases, inl, inr, if_false, text_eq_sound,
}
use ibc_solo_machine.Store.Query.{find_row, update_rows, find_row-update_rows}

module _ {A : Type 0} (key : A → Text) where
  -- No two rows have the same key.
  abbrev pub Distinct : List A → Type 0
  Distinct [] = Unit
  Distinct (r ∷ rs) = (find_row key (key r) rs ≡ none) × Distinct rs

  pub Distinct-insert :
      (r : A) (rs : List A)
      → is_some (find_row key (key r) rs) ≡ false
      → Distinct rs
      → Distinct (r ∷ rs)
  Distinct-insert r rs e d = elim (Option-cases (find_row key (key r) rs)) [
    | inl p ↦ (p, d)
    | inr (q, p) ↦ ground (arith, e, p)
  ]

  find_row-update_none :
      (f : A → A) (k j : Text) (rs : List A)
      → ((r : A) → key (f r) ≡ key r)
      → find_row key j rs ≡ none
      → find_row key j (update_rows key f k rs) ≡ none
  find_row-update_none f k j rs h e = rw (find_row-update_rows key f k j rs h, e) refl

  key-update :
      (f : A → A) (b : Bool) (r : A)
      → ((r : A) → key (f r) ≡ key r)
      → key (if b then f r else r) ≡ key r
  key-update f true r h = h r
  key-update f false r h = refl

  pub Distinct-update :
      (f : A → A) (k : Text) (rs : List A)
      → ((r : A) → key (f r) ≡ key r)
      → Distinct rs
      → Distinct (update_rows key f k rs)
  unfolding update_rows
  Distinct-update f k [] h d = tt
  Distinct-update f k (r ∷ rs) h d = (
    rw (key-update f (text_eq (key r) k) r h) (find_row-update_none f k (key r) rs h d.0),
    Distinct-update f k rs h d.1,
  )

  module _ (R : A → A → Type 0) where
    -- Each row that is found in `rs` is found in `rs'` under its key, as a row that `R` relates to it.
    abbrev pub Kept : List A → List A → Type 0
    Kept rs rs' =
        (k : Text) (r : A)
        → find_row key k rs ≡ some r
        → (r' : A) × (find_row key k rs' ≡ some r') × R r r'

    module _ (R-refl : (r : A) → R r r) where
      pub Kept-refl : (rs : List A) → Kept rs rs
      Kept-refl rs k r e = (r, e, R-refl r)

      pub Kept-insert :
          (r : A) (rs : List A) → is_some (find_row key (key r) rs) ≡ false → Kept rs (r ∷ rs)
      unfolding find_row
      Kept-insert r rs e k q p = elim (Bool-cases (text_eq (key r) k)) [
        | inl b ↦ ground (arith, e, p, text_eq_sound (key r) k b)
        | inr b ↦ (q, if_false _ _ _ b ∙ p, R-refl q)
      ]

      pub Kept-update :
          (f : A → A) (j : Text) (rs : List A)
          → ((r : A) → key (f r) ≡ key r)
          → ((r : A) → R r (f r))
          → Kept rs (update_rows key f j rs)
      Kept-update f j rs h l k q p = elim (Bool-cases (text_eq (key q) j)) [
        | inl b ↦ (f q, rw (find_row-update_rows key f j k rs h, p, b) refl, l q)
        | inr b ↦ (q, rw (find_row-update_rows key f j k rs h, p, b) refl, R-refl q)
      ]

    pub Kept-trans :
        ((r s t : A) → R r s → R s t → R r t)
        → (rs ss ts : List A) → Kept rs ss
        → Kept ss ts
        → Kept rs ts
    Kept-trans trans rs ss ts p q k r e =
        let (s, e₁, p₁) = p k r e in let (t, e₂, q₁) = q k s e₁ in (t, e₂, trans r s t p₁ q₁)

module _ {A : Type 0} (id : A → ℕ) where
  -- The identifiers go down from below `n`.
  abbrev pub Descends : ℕ → List A → Type 0
  Descends n [] = Unit
  Descends n (r ∷ rs) = (id r < n) × Descends (id r) rs
