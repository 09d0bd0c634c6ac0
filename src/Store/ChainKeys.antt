-- ===== src/Store/ChainKeys.antt =====
-- solo-machine-core/src/model/chain/chain_keys.rs: the table `chain_keys`.
use ibc_solo_machine.Base.{
  ℕ, ◌+◌, ℤ, Bool, false, ◌&&◌, ◌||◌, Option, none, some, List, [], ◌∷◌, Text, text_eq, ◌==◌,
  if◌then◌else◌, Result, ok, ◌>>=◌ as ◌>>=ᵣ◌, rows_affected,
}
use ibc_solo_machine.Identifier.{ChainId, parse_chain_id}
use ibc_solo_machine.Chain.{DateTime}
use ibc_solo_machine.Env.{Env}
use ibc_solo_machine.Database.{Database, RawChainKey, ChainKey}
use ibc_solo_machine.Exec.{Exec, Executor, lift, require, ◌>>=◌, select, execute, now}
use ibc_solo_machine.Store.Query.{select_rows, order_by_id, limit_rows, offset_rows}

-- `From<ChainKey> for RawChainKey`
unfoldable pub raw_of_key : ChainKey → RawChainKey
raw_of_key key = record {
  id = key.id;
  chain_id = key.chain_id.id;
  public_key = key.public_key;
  created_at = key.created_at;
}

-- `TryFrom<RawChainKey> for ChainKey`
unfoldable pub key_of_raw : RawChainKey → Result ChainKey
key_of_raw raw = parse_chain_id raw.chain_id >>=ᵣ λ chain_id. ok (record {
  id = raw.id;
  chain_id = chain_id;
  public_key = raw.public_key;
  created_at = raw.created_at;
})

-- The constraint `UNIQUE(chain_id, public_key)`.
unfoldable pub has_key : Text → Text → List RawChainKey → Bool
has_key chain_id public_key [] = false
has_key chain_id public_key (r ∷ rs) =
    (text_eq r.chain_id chain_id && text_eq r.public_key public_key)
    || has_key chain_id public_key rs

unfoldable pub insert_chain_key : Text → Text → DateTime → Database → Option (ℕ × Database)
insert_chain_key chain_id public_key current d =
    if has_key chain_id public_key d.chain_keys
    then none
    else some (
      1,
      record d {
        chain_keys =
            record {
              id = d.next_chain_key;
              chain_id = chain_id;
              public_key = public_key;
              created_at = current;
            }
            ∷ d.chain_keys;
        next_chain_key = d.next_chain_key + 1;
      },
    )

-- `into_iter().map(TryFrom::try_from).collect()`
unfoldable pub collect_keys : List RawChainKey → Result (List ChainKey)
collect_keys [] = ok []
collect_keys (r ∷ rs) = key_of_raw r >>=ᵣ λ k. collect_keys rs >>=ᵣ λ ks. ok (k ∷ ks)

abbrev pub row_chain_id : RawChainKey → Text
row_chain_id row = row.chain_id

abbrev pub row_id : RawChainKey → ℕ
row_id row = row.id

module _ ⦃env : Env⦄ where
  unfoldable pub add_chain_key : Executor → ChainId → Text → Exec (Unit {0})
  add_chain_key executor chain_id public_key = do
    current ← now
    n ← execute executor (insert_chain_key chain_id.id public_key current)
    require (n == 1) rows_affected

  unfoldable pub get_chain_keys : Executor → ChainId → ℤ → ℤ → Exec (List ChainKey)
  get_chain_keys executor chain_id limit offset = do
    rows ← select executor (λ d. limit_rows limit (
        offset_rows offset
          (order_by_id row_id (select_rows row_chain_id chain_id.id d.chain_keys))))
    lift (collect_keys rows)
