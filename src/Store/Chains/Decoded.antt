-- ===== src/Store/Chains/Decoded.antt =====
-- The chain that is made of a row, and the row that `get_chain` finds.
use ibc_solo_machine.Base.{
  ℕ, ◌≤◌, ℤ, pos, negsuc, Option, none, some, Text, ◌≡◌, refl, sym, ap, ◌∙◌, arith, ok, ok_or,
  >>=-eq-ok, ok-injective, subst, invalid_node_id,
}
use ibc_solo_machine.Identifier.{
  ChainId, parse_chain_id, parse, validate_length, max_identifier_len,
}
use ibc_solo_machine.Identifier.Validity.{parse_iff}
use ibc_solo_machine.Chain.{Chain, RawChain}
use ibc_solo_machine.Env.{Env}
use ibc_solo_machine.Exec.{World, transaction}
use ibc_solo_machine.Exec.Runs.{Runs, bind-Runs, lift-Runs, select-Runs}
use ibc_solo_machine.Store.Query.{find_row}
use ibc_solo_machine.Store.Chains.{row_id, max_u32, u32_of_i64, chain_of_raw, transpose, get_chain}

pub u32_of_i64-ok : (z : ℤ) (n : ℕ) → u32_of_i64 z ≡ ok n → (z ≡ pos n) × (n ≤ max_u32)
unfolding u32_of_i64
u32_of_i64-ok (pos m) n e = ground (arith, e)
u32_of_i64-ok (negsuc m) n e = ground (arith, e)

module _ ⦃env : Env⦄ where
  -- The row and the chain that is made of it.
  pub record Decoded (raw : RawChain) (c : Chain) : Type 0 where
    pub id_of : parse_chain_id raw.id ≡ ok c.id
    pub sequence_of : raw.sequence ≡ pos c.sequence
    pub sequence_bound : c.sequence ≤ max_u32
    pub packet_sequence_of : raw.packet_sequence ≡ pos c.packet_sequence
    pub details_of : c.connection_details ≡ raw.connection_details
    pub config_of : c.config ≡ raw.config

  pub chain_of_raw-Decoded : (raw : RawChain) (c : Chain) → chain_of_raw raw ≡ ok c → Decoded raw c
  unfolding chain_of_raw
  chain_of_raw-Decoded raw c e =
      let (id, p, e₁) = >>=-eq-ok (parse_chain_id raw.id) _ e in
      let (node, q, e₂) = >>=-eq-ok (ok_or (env.parse_node_id raw.node_id) invalid_node_id) _ e₁ in
      let (n, r, e₃) = >>=-eq-ok (u32_of_i64 raw.sequence) _ e₂ in
      let (m, s, e₄) = >>=-eq-ok (u32_of_i64 raw.packet_sequence) _ e₃ in
      let h = ok-injective e₄ in
      record {
        id_of = p ∙ ap (λ x. ok x.id) h;
        sequence_of = (u32_of_i64-ok raw.sequence n r).0 ∙ ap (λ x. pos x.sequence) h;
        sequence_bound =
            subst (λ (x : Chain). x.sequence ≤ max_u32) h (u32_of_i64-ok raw.sequence n r).1;
        packet_sequence_of =
            (u32_of_i64-ok raw.packet_sequence m s).0 ∙ ap (λ x. pos x.packet_sequence) h;
        details_of = ap (λ x. x.connection_details) (sym h);
        config_of = ap (λ x. x.config) (sym h);
      }

  pub parse_chain_id-id : (s : Text) (id : ChainId) → parse_chain_id s ≡ ok id → id.id ≡ s
  unfolding parse_chain_id
  parse_chain_id-id s id e =
      let (t, p, q) = >>=-eq-ok (parse s) _ e in
      let (u, q₁, q₂) = >>=-eq-ok (validate_length t 1 max_identifier_len) _ q in
      ap (λ x. x.id) (sym (ok-injective q₂)) ∙ ((parse_iff s t).0 p).0

  pub transpose-some :
      (o : Option RawChain) (c : Chain)
      → transpose o ≡ ok (some c)
      → (raw : RawChain) × (o ≡ some raw) × (chain_of_raw raw ≡ ok c)
  unfolding transpose
  transpose-some none c e = ground (arith, e)
  transpose-some (some raw) c e =
      let (c', p, q) = >>=-eq-ok (chain_of_raw raw) _ e in (raw, refl, ground (arith, p, q))

  pub transpose-found :
      (raw : RawChain) (found : Option Chain)
      → transpose (some raw) ≡ ok found
      → (c : Chain) × (found ≡ some c) × (chain_of_raw raw ≡ ok c)
  unfolding transpose
  transpose-found raw found e =
      let (c, p, q) = >>=-eq-ok (chain_of_raw raw) _ e in (c, sym (ok-injective q), p)

  pub get_chain-Runs :
      (id : ChainId) (w : World) (found : Option Chain) (v : World)
      → Runs (get_chain transaction id) w found v
      → (transpose (find_row row_id id.id w.working.chains) ≡ ok found) × (v.working ≡ w.working)
  unfolding get_chain
  get_chain-Runs id w found v e =
      let (row, u, p, q) = bind-Runs _ _ w found v e in
      let (r₁, r₂) = select-Runs _ w row u p in
      let (l₁, l₂) = lift-Runs (transpose row) u found v q in
      (ap transpose r₁ ∙ l₁, ap (λ x. x.working) (sym l₂) ∙ r₂)

  -- A chain that `get_chain` finds, and its row.
  pub get_chain-some :
      (id : ChainId) (w : World) (c : Chain) (v : World)
      → Runs (get_chain transaction id) w (some c) v
      → (raw : RawChain) × (find_row row_id id.id w.working.chains ≡ some raw)
        × Decoded raw c
        × (v.working ≡ w.working)
  get_chain-some id w c v e =
      let (t, p) = get_chain-Runs id w (some c) v e in
      let (raw, f, d) = transpose-some _ c t in (raw, f, chain_of_raw-Decoded raw c d, p)
