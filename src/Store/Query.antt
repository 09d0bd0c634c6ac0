-- ===== src/Store/Query.antt =====
-- What the SQL statements of solo-machine-core/src/model do to a list of rows: selection by a key,
-- `UPDATE … WHERE`, `ORDER BY id DESC`, `LIMIT` and `OFFSET`.
use ibc_solo_machine.Base.{
  ℕ, suc, ℤ, pos, negsuc, Bool, true, false, Option, none, some, List, [], ◌∷◌, ltb, take, drop,
  Text, text_eq, if◌then◌else◌, ◌≡◌, refl, arith, Bool-cases, Option-cases, some-injective, inl,
  inr, text_eq_sound, text_eq_refl, sym, ◌∙◌,
}

module _ {ℓ} {A : Type ℓ} (key : A → Text) where
  -- The first row of a key.
  unfoldable pub find_row : Text → List A → Option A
  find_row k [] = none
  find_row k (r ∷ rs) = if text_eq (key r) k then some r else find_row k rs

  -- Every row of a key is replaced; the others stay.
  unfoldable pub update_rows : (A → A) → Text → List A → List A
  update_rows f k [] = []
  update_rows f k (r ∷ rs) = (if text_eq (key r) k then f r else r) ∷ update_rows f k rs

  abbrev one_more : Bool → ℕ → ℕ
  one_more true n = suc n
  one_more false n = n

  -- `rows_affected`
  unfoldable pub count_rows : Text → List A → ℕ
  count_rows k [] = 0
  count_rows k (r ∷ rs) = one_more (text_eq (key r) k) (count_rows k rs)

  unfoldable pub select_rows : Text → List A → List A
  select_rows k [] = []
  select_rows k (r ∷ rs) =
      let rest = select_rows k rs in if text_eq (key r) k then r ∷ rest else rest

  pub find_row_key : (k : Text) (rs : List A) (r : A) → find_row k rs ≡ some r → key r ≡ k
  unfolding find_row
  find_row_key k [] r e = ground (arith, e)
  find_row_key k (s ∷ rs) r e = elim (Bool-cases (text_eq (key s) k)) [
    | inl b ↦ ground (arith, e, b, text_eq_sound (key s) k b)
    | inr b ↦ find_row_key k rs r (ground (arith, e, b))
  ]

  pub count_rows-none : (k : Text) (rs : List A) → find_row k rs ≡ none → count_rows k rs ≡ 0
  unfolding find_row count_rows
  count_rows-none k [] e = refl
  count_rows-none k (s ∷ rs) e = elim (Bool-cases (text_eq (key s) k)) [
    | inl b ↦ ground (arith, e, b)
    | inr b ↦ rw b (count_rows-none k rs (ground (arith, e, b)))
  ]

  -- An update that keeps the key of a row changes what is found by the key, and nothing else.
  pub find_row-update_rows :
      (f : A → A) (k j : Text) (rs : List A)
      → ((r : A) → key (f r) ≡ key r)
      → find_row j (update_rows f k rs) ≡ (elim (find_row j rs) [
        | none ↦ none
        | some r ↦ if text_eq (key r) k then some (f r) else some r
      ])
  unfolding find_row update_rows
  find_row-update_rows f k j [] h = refl
  find_row-update_rows f k j (r ∷ rs) h = ground (arith, find_row-update_rows f k j rs h, h r)

  pub find_row-update_self :
      (f : A → A) (k : Text) (rs : List A) (r : A)
      → ((r : A) → key (f r) ≡ key r)
      → find_row k rs ≡ some r
      → find_row k (update_rows f k rs) ≡ some (f r)
  find_row-update_self f k rs r h e =
      rw (find_row-update_rows f k k rs h, e, find_row_key k rs r e, text_eq_refl k) refl

  pub find_row-update_inverse :
      (f : A → A) (k : Text) (rs : List A) (r : A)
      → ((r : A) → key (f r) ≡ key r)
      → find_row k (update_rows f k rs) ≡ some r
      → (q : A) × (find_row k rs ≡ some q) × (r ≡ f q)
  find_row-update_inverse f k rs r h e = elim (Option-cases (find_row k rs)) [
    | inl p ↦ ground (arith, e, p, find_row-update_rows f k k rs h)
    | inr (q, p) ↦ (q, p, some-injective (sym e ∙ find_row-update_self f k rs q h p))
  ]

module _ {ℓ} {A : Type ℓ} (id : A → ℕ) where
  unfoldable pub insert_row : A → List A → List A
  insert_row r [] = r ∷ []
  insert_row r (s ∷ rs) =
      let later = s ∷ insert_row r rs in if ltb (id r) (id s) then later else r ∷ s ∷ rs

  -- `ORDER BY id DESC`
  unfoldable pub order_by_id : List A → List A
  unfolding insert_row
  order_by_id [] = []
  order_by_id (r ∷ rs) = insert_row r (order_by_id rs)

-- `LIMIT` and `OFFSET`: a negative limit is no limit, a negative offset is none.
module _ {ℓ} {A : Type ℓ} where
  unfoldable pub limit_rows : ℤ → List A → List A
  limit_rows (pos n) rs = take n rs
  limit_rows (negsuc n) rs = rs

  unfoldable pub offset_rows : ℤ → List A → List A
  offset_rows (pos n) rs = drop n rs
  offset_rows (negsuc n) rs = rs
