-- ===== src/Invariant/Tables.antt =====
-- The constraints of the tables, and what the statements of solo-machine-core/src/model keep.
use ibc_solo_machine.Base.{
  zero, suc, ◌≤◌, ℤ, pos, negsuc, add_one, true, false, Option, some, List, [], ◌∷◌, Text, ◌≡◌,
  refl, ◌∙◌, arith,
}
use ibc_solo_machine.Chain.{RawChain}
use ibc_solo_machine.Database.{Database, IbcData, RawChainKey, empty}
use ibc_solo_machine.Store.Chains.{row_id}
use ibc_solo_machine.Store.ChainKeys.{has_key, insert_chain_key}
use ibc_solo_machine.Store.ChainKeys
use ibc_solo_machine.Store.IbcData.{row_path}
use ibc_solo_machine.Store.Operations.{insert_operation}
use ibc_solo_machine.Store.Operations
use ibc_solo_machine.Invariant.Rows.{Distinct, Kept, Kept-refl, Kept-trans, Descends}

-- The order of the integers.
infix 50 ◌≤ℤ◌
abbrev pub ◌≤ℤ◌ : ℤ → ℤ → Type 0
pos m ≤ℤ pos n = m ≤ n
pos m ≤ℤ negsuc n = ⊥
negsuc m ≤ℤ pos n = Unit
negsuc m ≤ℤ negsuc n = n ≤ m

pub ≤ℤ-refl : (z : ℤ) → z ≤ℤ z
≤ℤ-refl (pos n) = omega arith
≤ℤ-refl (negsuc n) = omega arith

≤ℤ-trans : (x y z : ℤ) → x ≤ℤ y → y ≤ℤ z → x ≤ℤ z
≤ℤ-trans (pos a) (pos b) (pos c) p q = omega (arith, p, q)
≤ℤ-trans (negsuc a) (pos b) (pos c) p q = tt
≤ℤ-trans (negsuc a) (negsuc b) (pos c) p q = tt
≤ℤ-trans (negsuc a) (negsuc b) (negsuc c) p q = omega (arith, p, q)
≤ℤ-trans (pos a) (pos b) (negsuc c) p q = absurd q
≤ℤ-trans (pos a) (negsuc b) z p q = absurd p
≤ℤ-trans (negsuc a) (pos b) (negsuc c) p q = absurd q

pub ≤ℤ-add_one : (z : ℤ) → z ≤ℤ add_one z
≤ℤ-add_one (pos n) = omega arith
≤ℤ-add_one (negsuc zero) = tt
≤ℤ-add_one (negsuc (suc n)) = omega arith

-- A later row of the same chain.
pub record Later (r s : RawChain) : Type 0 where
  pub same_id : s.id ≡ r.id
  pub same_node_id : s.node_id ≡ r.node_id
  pub same_config : s.config ≡ r.config
  pub same_created_at : s.created_at ≡ r.created_at
  pub sequence : r.sequence ≤ℤ s.sequence
  pub packet_sequence : r.packet_sequence ≤ℤ s.packet_sequence

pub Later-refl : (r : RawChain) → Later r r
Later-refl r = record {
  same_id = refl;
  same_node_id = refl;
  same_config = refl;
  same_created_at = refl;
  sequence = ≤ℤ-refl r.sequence;
  packet_sequence = ≤ℤ-refl r.packet_sequence;
}

pub Later-trans : (r s t : RawChain) → Later r s → Later s t → Later r t
Later-trans r s t p q = record {
  same_id = q.same_id ∙ p.same_id;
  same_node_id = q.same_node_id ∙ p.same_node_id;
  same_config = q.same_config ∙ p.same_config;
  same_created_at = q.same_created_at ∙ p.same_created_at;
  sequence = ≤ℤ-trans r.sequence s.sequence t.sequence p.sequence q.sequence;
  packet_sequence =
      ≤ℤ-trans r.packet_sequence s.packet_sequence t.packet_sequence p.packet_sequence
        q.packet_sequence;
}

abbrev pub SamePath : IbcData → IbcData → Type 0
SamePath r s = s.path ≡ r.path

-- The constraints `UNIQUE(chain_id, public_key)`.
abbrev pub DistinctKeys : List RawChainKey → Type 0
DistinctKeys [] = Unit
DistinctKeys (r ∷ rs) = (has_key r.chain_id r.public_key rs ≡ false) × DistinctKeys rs

-- The constraints of the four tables: the primary keys, `UNIQUE(chain_id, public_key)`, and
-- `AUTOINCREMENT`.
pub record WellFormed (d : Database) : Type 0 where
  pub chains : Distinct row_id d.chains
  pub ibc_data : Distinct row_path d.ibc_data
  pub chain_keys : DistinctKeys d.chain_keys
  pub chain_key_ids : Descends ChainKeys.row_id d.next_chain_key d.chain_keys
  pub operation_ids : Descends Operations.row_id d.next_operation d.operations

-- From `d` to `e` no chain, no path and no key of a chain is lost, and no sequence goes back.
pub record Forward (d e : Database) : Type 0 where
  pub chains : Kept row_id Later d.chains e.chains
  pub ibc_data : Kept row_path SamePath d.ibc_data e.ibc_data
  pub chain_keys :
      (id public_key : Text)
      → has_key id public_key d.chain_keys ≡ true
      → has_key id public_key e.chain_keys ≡ true

pub Forward-refl : (d : Database) → Forward d d
Forward-refl d = record {
  chains = Kept-refl row_id Later Later-refl d.chains;
  ibc_data = Kept-refl row_path SamePath (λ r. refl) d.ibc_data;
  chain_keys = λ id public_key h. h;
}

pub Forward-trans : (d e f : Database) → Forward d e → Forward e f → Forward d f
Forward-trans d e f p q = record {
  chains = Kept-trans row_id Later Later-trans d.chains e.chains f.chains p.chains q.chains;
  ibc_data =
      Kept-trans row_path SamePath (λ r s t h k. k ∙ h) d.ibc_data e.ibc_data f.ibc_data p.ibc_data
        q.ibc_data;
  chain_keys = λ id public_key h. q.chain_keys id public_key (p.chain_keys id public_key h);
}

pub WellFormed-empty : WellFormed empty
WellFormed-empty = record {
  chains = tt;
  ibc_data = tt;
  chain_keys = tt;
  chain_key_ids = tt;
  operation_ids = tt;
}

module _ {A : Type 0} where
  -- A statement that keeps the constraints and goes forward, where it succeeds.
  abbrev pub Lawful : (Database → Option (A × Database)) → Type 0
  Lawful f =
      (d : Database) (a : A) (e : Database)
      → f d ≡ some (a, e)
      → WellFormed d
      → WellFormed e × Forward d e
