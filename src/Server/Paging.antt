-- ===== src/Server/Paging.antt =====
-- The number of operations in a response of `query_history`.
use ibc_solo_machine.Base.{
  ℕ, zero, suc, ℤ, pos, ◌≤◌, List, [], ◌∷◌, length, take, unwrap_or, map, ◌≡◌, refl, sym, ap, ◌∙◌,
  arith, Result, ok, err, panic, >>=-eq-ok, ok-injective, subst, external, invalid_limit,
  invalid_offset, Error,
}
use ibc_solo_machine.Database.{Operation, RawOperation}
use ibc_solo_machine.Env.{Env}
use ibc_solo_machine.Crates.{Crates}
use ibc_solo_machine.Exec.{World}
use ibc_solo_machine.Exec.Runs.{Runs, bind-Runs, lift-Runs, or_raise-Runs, select_pool-Runs}
use ibc_solo_machine.Store.Query.{limit_rows}
use ibc_solo_machine.Store.Operations.{operation_of_raw, collect_operations, get_operations}
use ibc_solo_machine.Service.Transfer.{history}
use ibc_solo_machine.Server.{response, or_internal, respond, map_reply}
use ibc_solo_machine.Server.Ibc.{
  QueryHistoryRequest, OperationResponse, read_count, read_page, operation_response, query_history,
}

module _ {A : Type 0} where
  length-take : (n : ℕ) (xs : List A) → length (take n xs) ≤ n
  length-take zero xs = omega arith
  length-take (suc n) [] = omega arith
  length-take (suc n) (x ∷ xs) = omega (arith, length-take n xs)

  length-map : {B : Type 0} (f : A → B) (xs : List A) → length (map f xs) ≡ length xs
  length-map f [] = refl
  length-map f (x ∷ xs) = ap suc (length-map f xs)

read_count-ok : (e : Error) (n : ℕ) (z : ℤ) → read_count e n ≡ ok z → z ≡ pos n
unfolding read_count
read_count-ok e n z h = ground (arith, h)

module _ ⦃env : Env⦄ where
  length-collect_operations :
      (rs : List RawOperation) (os : List Operation)
      → collect_operations rs ≡ ok os
      → length os ≡ length rs
  unfolding collect_operations
  length-collect_operations [] os e = ap length (sym (ok-injective e))
  length-collect_operations (r ∷ rs) os e =
      let (o, _, f) = >>=-eq-ok (operation_of_raw r) _ e in
      let (ps, g, h) = >>=-eq-ok (collect_operations rs) _ f in
      ap length (sym (ok-injective h)) ∙ ap suc (length-collect_operations rs ps g)

  history-length :
      (n : ℕ) (offset : ℤ) (w : World) (os : List Operation) (v : World)
      → Runs (history (pos n) offset) w os v
      → length os ≤ n
  unfolding history get_operations limit_rows
  history-length n offset w os v e =
      let (address, w₁, e₁, f₁) = bind-Runs _ _ w os v e in
      let stay = (or_raise-Runs env.account_address external w address w₁ e₁).1 in
      let (rows, w₂, e₂, f₂) = bind-Runs _ _ w₁ os v f₁ in
      let p = select_pool-Runs _ w₁ rows w₂ e₂ in
      let q =
        length-collect_operations rows os (lift-Runs (collect_operations rows) w₂ os v f₂).0 in
      subst (λ (k : ℕ). k ≤ n) (sym q)
        (subst (λ (rs : List RawOperation). length rs ≤ n) p (length-take n _))

module _ ⦃env : Env⦄ ⦃crates : Crates⦄ where
  read_page-ok :
      (request : QueryHistoryRequest) (p : ℤ × ℤ)
      → read_page request ≡ ok p
      → p.0 ≡ pos (unwrap_or request.limit 10)
  unfolding read_page
  read_page-ok request p e =
      let (l, e₁, f₁) = >>=-eq-ok (read_count invalid_limit (unwrap_or request.limit 10)) _ e in
      let (o, e₂, f₂) = >>=-eq-ok (read_count invalid_offset (unwrap_or request.offset 0)) _ f₁ in
      ap (λ x. x.0) (sym (ok-injective f₂)) ∙ read_count-ok invalid_limit _ l e₁

  answer-length :
      (n : ℕ) (offset : ℤ) (w : World) (r : Result (List Operation)) (v : World)
      (ops : List OperationResponse)
      → history (pos n) offset w ≡ (r, v)
      → map_reply (map operation_response) (or_internal r) ≡ response ops
      → length ops ≤ n
  answer-length n offset w (ok os) v ops e h =
      let k = history-length n offset w os v e in
      let same : map operation_response os ≡ ops = ground (arith, h) in
      subst (λ (xs : List OperationResponse). length xs ≤ n) same
        (subst (λ (m : ℕ). m ≤ n) (sym (length-map operation_response os)) k)
  answer-length n offset w (err x) v ops e h = ground (arith, h)
  answer-length n offset w panic v ops e h = ground (arith, h)

  page-length :
      (limit : ℕ) (page : Result (ℤ × ℤ)) (w : World) (ops : List OperationResponse)
      → ((p : ℤ × ℤ) → page ≡ ok p → p.0 ≡ pos limit)
      → map_reply (map operation_response) (respond page (λ p. history p.0 p.1) w).0 ≡ response ops
      → length ops ≤ limit
  unfolding respond
  page-length limit (ok p) w ops h e = answer-length limit p.1 w _ _ ops refl (
      subst
        (λ (z : ℤ).
          map_reply (map operation_response) (or_internal (history z p.1 w).0) ≡ response ops)
        (h p refl) e)
  page-length limit (err x) w ops h e = ground (arith, e)
  page-length limit panic w ops h e = ground (arith, e)

  -- Where `query_history` answers with operations, they are at most as many as the request's limit,
  -- or as 10 where the request has no limit.
  pub query_history_bounded :
      (request : QueryHistoryRequest) (w : World) (ops : List OperationResponse)
      → (query_history request w).0 ≡ response ops
      → length ops ≤ unwrap_or request.limit 10
  unfolding query_history
  query_history_bounded request w ops e =
      page-length (unwrap_or request.limit 10) (read_page request) w ops (read_page-ok request) e
