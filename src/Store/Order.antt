-- ===== src/Store/Order.antt =====
-- The rows that the SQL statements of solo-machine-core/src/model select, and their order.
use ibc_solo_machine.Base.{
  ℕ, zero, suc, ◌≤◌, ◌≡◌, ℤ, pos, negsuc, List, [], ◌∷◌, ltb, take, drop, All, Text, text_eq,
  text_eq_sound, arith, Bool-cases, inl, inr,
}
use ibc_solo_machine.Store.Query.{select_rows, insert_row, order_by_id, limit_rows, offset_rows}

module _ {A : Type 0} (P : A → Type 0) where
  insert_row-All : (id : A → ℕ) (r : A) (rs : List A) → P r → All P rs → All P (insert_row id r rs)
  unfolding insert_row
  insert_row-All id r [] p h = (p, tt)
  insert_row-All id r (s ∷ rs) p (q, h) = elim (Bool-cases (ltb (id r) (id s))) [
    | inl b ↦ rw b (q, insert_row-All id r rs p h)
    | inr b ↦ rw b (p, (q, h))
  ]

  pub order_by_id-All : (id : A → ℕ) (rs : List A) → All P rs → All P (order_by_id id rs)
  unfolding order_by_id
  order_by_id-All id [] h = tt
  order_by_id-All id (r ∷ rs) (p, h) = insert_row-All id r _ p (order_by_id-All id rs h)

  take-All : (n : ℕ) (rs : List A) → All P rs → All P (take n rs)
  take-All zero rs h = tt
  take-All (suc n) [] h = tt
  take-All (suc n) (r ∷ rs) (p, h) = (p, take-All n rs h)

  drop-All : (n : ℕ) (rs : List A) → All P rs → All P (drop n rs)
  drop-All zero rs h = h
  drop-All (suc n) [] h = tt
  drop-All (suc n) (r ∷ rs) (p, h) = drop-All n rs h

  pub limit_rows-All : (z : ℤ) (rs : List A) → All P rs → All P (limit_rows z rs)
  unfolding limit_rows
  limit_rows-All (pos n) rs h = take-All n rs h
  limit_rows-All (negsuc n) rs h = h

  pub offset_rows-All : (z : ℤ) (rs : List A) → All P rs → All P (offset_rows z rs)
  unfolding offset_rows
  offset_rows-All (pos n) rs h = drop-All n rs h
  offset_rows-All (negsuc n) rs h = h

pub select_rows-All :
    {A : Type 0} (key : A → Text) (k : Text) (rs : List A)
    → All (λ r. key r ≡ k) (select_rows key k rs)
unfolding select_rows
select_rows-All key k [] = tt
select_rows-All key k (r ∷ rs) = elim (Bool-cases (text_eq (key r) k)) [
  | inl b ↦ rw b (text_eq_sound (key r) k b, select_rows-All key k rs)
  | inr b ↦ rw b (select_rows-All key k rs)
]

module _ {A : Type 0} (id : A → ℕ) where
  -- The identifiers do not go up along the list.
  abbrev pub Descending : List A → Type 0
  Descending [] = Unit
  Descending (r ∷ rs) = All (λ s. id s ≤ id r) rs × Descending rs

  below :
      (r s : A) (rs : List A) → id s ≤ id r → All (λ t. id t ≤ id s) rs → All (λ t. id t ≤ id r) rs
  below r s [] p h = tt
  below r s (t ∷ rs) p (q, h) = (omega (arith, p, q), below r s rs p h)

  insert_row-Descending : (r : A) (rs : List A) → Descending rs → Descending (insert_row id r rs)
  unfolding insert_row
  insert_row-Descending r [] h = (tt, tt)
  insert_row-Descending r (s ∷ rs) (q, h) = elim (Bool-cases (ltb (id r) (id s))) [
    | inl b ↦ rw b (
      insert_row-All (λ t. id t ≤ id s) id r rs (ground (arith, b)) q,
      insert_row-Descending r rs h,
    )
    | inr b ↦ let le : id s ≤ id r = ground (arith, b) in rw b ((le, below r s rs le q), (q, h))
  ]

  pub order_by_id-Descending : (rs : List A) → Descending (order_by_id id rs)
  unfolding order_by_id
  order_by_id-Descending [] = tt
  order_by_id-Descending (r ∷ rs) = insert_row-Descending r _ (order_by_id-Descending rs)

  take-Descending : (n : ℕ) (rs : List A) → Descending rs → Descending (take n rs)
  take-Descending zero rs h = tt
  take-Descending (suc n) [] h = tt
  take-Descending (suc n) (r ∷ rs) (q, h) = (take-All _ n rs q, take-Descending n rs h)

  drop-Descending : (n : ℕ) (rs : List A) → Descending rs → Descending (drop n rs)
  drop-Descending zero rs h = h
  drop-Descending (suc n) [] h = tt
  drop-Descending (suc n) (r ∷ rs) (q, h) = drop-Descending n rs h

  pub limit_rows-Descending : (z : ℤ) (rs : List A) → Descending rs → Descending (limit_rows z rs)
  unfolding limit_rows
  limit_rows-Descending (pos n) rs h = take-Descending n rs h
  limit_rows-Descending (negsuc n) rs h = h

  pub offset_rows-Descending : (z : ℤ) (rs : List A) → Descending rs → Descending (offset_rows z rs)
  unfolding offset_rows
  offset_rows-Descending (pos n) rs h = drop-Descending n rs h
  offset_rows-Descending (negsuc n) rs h = h
