-- ===== src/Store/Chains/Laws.antt =====
-- What the statements on the table `chains` return and leave behind.
use ibc_solo_machine.Base.{
  le→leb, ◌+◌, ◌≤◌, add_one, Option, some, Text, ◌≡◌, refl, sym, ap, ◌∙◌, arith, ok, pos-injective,
  some-injective, subst, List, Option-cases, inl, inr, ==_iff, external,
}
use ibc_solo_machine.Identifier.{ChainId, parse_chain_id}
use ibc_solo_machine.Chain.{Chain, ConnectionDetails, RawChain, DateTime}
use ibc_solo_machine.Env.{Env}
use ibc_solo_machine.Exec.{World, transaction, execute}
use ibc_solo_machine.Exec.Runs.{
  Runs, bind-Runs, lift-Runs, or_raise-Runs, require-Runs, now-Runs, execute-Runs, some_pair,
}
use ibc_solo_machine.Store.Query.{
  find_row, update_rows, count_rows, find_row-update_self, find_row-update_inverse, count_rows-none,
  find_row_key,
}
use ibc_solo_machine.Store.Chains.{
  raw_of_chain, row_id, max_u32, u32_of_i64, chain_of_raw, transpose, get_chain, set_details,
  add_connection_details, next_sequence, update_returning, increment_sequence,
}
use ibc_solo_machine.Store.Chains.Decoded.{
  Decoded, chain_of_raw-Decoded, parse_chain_id-id, transpose-found, get_chain-Runs, get_chain-some,
}

module _ ⦃env : Env⦄ where
  pub add_connection_details-Runs :
      (id : ChainId) (details : ConnectionDetails) (w : World) (a : Unit {0}) (v : World)
      → Runs (add_connection_details transaction id details) w a v
      → (current : DateTime) × (count_rows row_id id.id w.working.chains ≡ 1)
        × (v.working.chains
            ≡ update_rows row_id (set_details details current) id.id w.working.chains)
  unfolding add_connection_details
  add_connection_details-Runs id details w a v e =
      let (current, w₁, e₁, f₁) = bind-Runs _ _ w a v e in
      let (n, w₂, e₂, f₂) = bind-Runs _ _ w₁ a v f₁ in
      let p = now-Runs w current w₁ e₁ in
      let q = execute-Runs _ w₁ n w₂ e₂ in
      let (r, s) = require-Runs _ _ w₂ a v f₂ in
      (
        current,
        ap (λ x. count_rows row_id id.id x.working.chains) p ∙ ((some_pair q).0 ∙ (==_iff n 1).0 r),
        ap (λ x. x.working.chains) (sym s)
            ∙ (ap (λ d. d.chains) (sym (some_pair q).1)
                ∙ ap (λ x. update_rows row_id (set_details details current) id.id x.working.chains)
                    (sym p)),
      )

  count_rows-some :
      (id : Text) (rs : List RawChain)
      → count_rows row_id id rs ≡ 1
      → (r : RawChain) × (find_row row_id id rs ≡ some r)
  count_rows-some id rs e = elim (Option-cases (find_row row_id id rs)) [
    | inl p ↦ ground (arith, e, count_rows-none row_id id rs p)
    | inr q ↦ q
  ]

  -- After connection details are stored for a chain, `get_chain` of this name in the same
  -- transaction, where it returns, finds the chain, with these details.
  pub get_chain-add_connection_details :
      (id key : ChainId) (details : ConnectionDetails) (w u v : World) (a : Unit {0})
      (found : Option Chain)
      → id.id ≡ key.id
      → Runs (add_connection_details transaction id details) w a u
      → Runs (get_chain transaction key) u found v
      → (c : Chain) × (found ≡ some c) × (c.connection_details ≡ some details) × (c.id.id ≡ key.id)
  unfolding set_details
  get_chain-add_connection_details id key details w u v a found same e f =
      let (current, p, q) = add_connection_details-Runs id details w a u e in
      let (r, s) = count_rows-some id.id w.working.chains p in
      let row = find_row-update_self row_id (set_details details current) id.id _ r (λ r. refl) s in
      let (t, _) = get_chain-Runs key u found v f in
      let here = ap (λ x. transpose (find_row row_id id.id x)) q ∙ ap transpose row in
      let (c, z, d) =
        transpose-found _ found
          (sym here ∙ (ap (λ k. transpose (find_row row_id k u.working.chains)) same ∙ t)) in
      let decoded = chain_of_raw-Decoded _ c d in
      (
        c,
        z,
        decoded.details_of,
        parse_chain_id-id _ c.id decoded.id_of ∙ (find_row_key row_id id.id _ r s ∙ same),
      )

  -- A statement that updates the row of a chain and returns it.
  update_returning-Runs :
      (f : RawChain → RawChain) (k : Text) (w : World) (row : Option RawChain) (v : World)
      → Runs (execute transaction (update_returning f k)) w row v
      → (row ≡ find_row row_id k v.working.chains)
        × (v.working.chains ≡ update_rows row_id f k w.working.chains)
  unfolding update_returning
  update_returning-Runs f k w row v e =
      let (p, q) = some_pair (execute-Runs _ w row v e) in
      let r = ap (λ d. d.chains) (sym q) in (sym p ∙ ap (find_row row_id k) (sym r), r)

  -- From `w` to `v` the row of a chain is replaced by `f` of it, and `c` is the chain of the new row.
  pub record Replaces (f : RawChain → RawChain) (id : ChainId) (w : World) (c : Chain) (v : World)
      : Type 0 where
    pub before : RawChain
    pub found_before : find_row row_id id.id w.working.chains ≡ some before
    pub found_after : find_row row_id id.id v.working.chains ≡ some (f before)
    pub decoded : Decoded (f before) c

  pub increment_sequence-Replaces :
      (id : ChainId) (w : World) (c : Chain) (v : World)
      → Runs (increment_sequence transaction id) w c v
      → (current : DateTime) × Replaces (next_sequence current) id w c v
  unfolding increment_sequence next_sequence
  increment_sequence-Replaces id w c v e =
      let (current, w₁, e₁, f₁) = bind-Runs _ _ w c v e in
      let (row, w₂, e₂, f₂) = bind-Runs _ _ w₁ c v f₁ in
      let (raw, w₃, e₃, f₃) = bind-Runs _ _ w₂ c v f₂ in
      let p = now-Runs w current w₁ e₁ in
      let (q, q') = update_returning-Runs (next_sequence current) id.id w₁ row w₂ e₂ in
      let (r, r') = or_raise-Runs row external w₂ raw w₃ e₃ in
      let (d, d') = lift-Runs (chain_of_raw raw) w₃ c v f₃ in
      let after = sym q ∙ r in
      let (old, found, same) =
        find_row-update_inverse row_id (next_sequence current) id.id _ raw (λ r. refl)
          (ap (find_row row_id id.id) (sym q') ∙ after) in
      (
        current,
        record {
          before = old;
          found_before = ap (λ x. find_row row_id id.id x.working.chains) p ∙ found;
          found_after =
              ap (λ x. find_row row_id id.id x.working.chains) (sym (r' ∙ d'))
              ∙ (after ∙ ap some same);
          decoded = subst (λ (x : RawChain). Decoded x c) same (chain_of_raw-Decoded raw c d);
        },
      )

  -- Where `get_chain` finds a chain and `increment_sequence` of it then returns, it returns the chain
  -- with the next sequence, which still is a `u32`; the packet sequence, the connection details and
  -- the configuration are as before.
  pub increment_sequence_advances :
      (id : ChainId) (w u v : World) (c c' : Chain)
      → Runs (get_chain transaction id) w (some c) u
      → Runs (increment_sequence transaction id) u c' v
      → (c'.sequence ≡ c.sequence + 1)
        × (c'.sequence ≤ max_u32)
        × (c'.packet_sequence ≡ c.packet_sequence)
        × (c'.connection_details ≡ c.connection_details)
        × (c'.config ≡ c.config)
  unfolding next_sequence
  increment_sequence_advances id w u v c c' e f =
      let (raw, p, d, s) = get_chain-some id w c u e in
      let (current, k) = increment_sequence-Replaces id u c' v f in
      let d' = k.decoded in
      let same =
        ap (next_sequence current) (
          some-injective (sym k.found_before ∙ (ap (λ x. find_row row_id id.id x.chains) s ∙ p))) in
      (
        pos-injective (sym d'.sequence_of ∙ (ap (λ x. x.sequence) same ∙ ap add_one d.sequence_of)),
        d'.sequence_bound,
        pos-injective
            (sym d'.packet_sequence_of ∙ (ap (λ x. x.packet_sequence) same ∙ d.packet_sequence_of)),
        d'.details_of ∙ (ap (λ x. x.connection_details) same ∙ sym d.details_of),
        d'.config_of ∙ (ap (λ x. x.config) same ∙ sym d.config_of),
      )

  -- At the largest `u32` the sequence cannot be advanced: `increment_sequence` then returns nothing.
  pub increment_sequence_exhausted :
      (id : ChainId) (w u v : World) (c c' : Chain)
      → Runs (get_chain transaction id) w (some c) u
      → c.sequence ≡ max_u32
      → ¬ Runs (increment_sequence transaction id) u c' v
  increment_sequence_exhausted id w u v c c' e m f =
      let (n, b, _, _, _) = increment_sequence_advances id w u v c c' e f in omega (arith, n, b, m)

  -- The row that a chain is written as is read back as the chain, where its name and the identifier
  -- of its node are parsed back from their texts and its two sequences are `u32`.
  pub chain_of_raw-raw_of_chain :
      (c : Chain)
      → parse_chain_id c.id.id ≡ ok c.id
      → env.parse_node_id c.node_id ≡ some c.node_id
      → c.sequence ≤ max_u32
      → c.packet_sequence ≤ max_u32
      → chain_of_raw (raw_of_chain c) ≡ ok c
  unfolding chain_of_raw raw_of_chain u32_of_i64
  chain_of_raw-raw_of_chain c p q m n =
      rw (p, q, le→leb c.sequence max_u32 m, le→leb c.packet_sequence max_u32 n) refl
