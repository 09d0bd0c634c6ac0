-- ===== src/Invariant/Statements.antt =====
-- What the statements of solo-machine-core/src/model keep.
use ibc_solo_machine.Base.{
  ℕ, subst, some-injective, Bool, true, false, Option, none, some, List, ◌∷◌, Text, Bytes, ◌≡◌,
  refl, ap, arith, if◌then◌else◌,
}
use ibc_solo_machine.Chain.{RawChain, ConnectionDetails, DateTime}
use ibc_solo_machine.Database.{Database, IbcData, RawChainKey, OperationType}
use ibc_solo_machine.Store.Query.{update_rows}
use ibc_solo_machine.Store.Chains.{
  row_id, insert_chain, set_details, next_sequence, next_packet_sequence, update_returning,
  update_details,
}
use ibc_solo_machine.Store.ChainKeys.{has_key, insert_chain_key}
use ibc_solo_machine.Store.IbcData.{row_path, insert_data, set_payload, update_data}
use ibc_solo_machine.Store.Operations.{insert_operation}
use ibc_solo_machine.Invariant.Rows.{
  Distinct, Distinct-insert, Distinct-update, Kept, Kept-refl, Kept-insert, Kept-update,
}
use ibc_solo_machine.Invariant.Tables.{
  ≤ℤ-refl, ≤ℤ-add_one, Later, Later-refl, SamePath, WellFormed, Forward, Lawful,
}

module _ {X : Type 0} where
  -- A guarded insertion that succeeds.
  guarded : (b : Bool) (x y : X) → (if b then none else some x) ≡ some y → (b ≡ false) × (x ≡ y)
  guarded true x y e = ground (arith, e)
  guarded false x y e = (refl, some-injective e)

has_key-more :
    (r : RawChainKey) (rs : List RawChainKey) (id public_key : Text)
    → has_key id public_key rs ≡ true
    → has_key id public_key (r ∷ rs) ≡ true
unfolding has_key
has_key-more r rs id public_key e = ground (arith, e)

-- What is left as it is.
changes_chains :
    (d : Database) (rows : List RawChain)
    → WellFormed d
    → Distinct row_id rows
    → Kept row_id Later d.chains rows
    → WellFormed (record d { chains = rows }) × Forward d (record d { chains = rows })
changes_chains d rows w p k = (
  record {
    chains = p;
    ibc_data = w.ibc_data;
    chain_keys = w.chain_keys;
    chain_key_ids = w.chain_key_ids;
    operation_ids = w.operation_ids;
  },
  record {
    chains = k;
    ibc_data = Kept-refl row_path SamePath (λ r. refl) d.ibc_data;
    chain_keys = λ id public_key h. h;
  },
)

changes_data :
    (d : Database) (rows : List IbcData)
    → WellFormed d
    → Distinct row_path rows
    → Kept row_path SamePath d.ibc_data rows
    → WellFormed (record d { ibc_data = rows }) × Forward d (record d { ibc_data = rows })
changes_data d rows w p k = (
  record {
    chains = w.chains;
    ibc_data = p;
    chain_keys = w.chain_keys;
    chain_key_ids = w.chain_key_ids;
    operation_ids = w.operation_ids;
  },
  record {
    chains = Kept-refl row_id Later Later-refl d.chains;
    ibc_data = k;
    chain_keys = λ id public_key h. h;
  },
)

abbrev Good : Database → Database → Type 0
Good d e = WellFormed e × Forward d e

pub insert_chain-Lawful : (row : RawChain) → Lawful (insert_chain row)
unfolding insert_chain
insert_chain-Lawful row d a e p w =
    let (absent, q) = guarded _ _ _ p in
    subst (Good d) (ap (λ x. x.1) q) (
      changes_chains d (row ∷ d.chains) w (Distinct-insert row_id row d.chains absent w.chains)
        (Kept-insert row_id Later Later-refl row d.chains absent))

updates_chains :
    (f : RawChain → RawChain) (k : Text) (d : Database)
    → ((r : RawChain) → Later r (f r))
    → WellFormed d
    → Good d (record d { chains = update_rows row_id f k d.chains })
updates_chains f k d l w =
    changes_chains d _ w (Distinct-update row_id f k d.chains (λ r. (l r).same_id) w.chains)
      (Kept-update row_id Later Later-refl f k d.chains (λ r. (l r).same_id) l)

pub update_returning-Lawful :
    (f : RawChain → RawChain) (k : Text)
    → ((r : RawChain) → Later r (f r))
    → Lawful (update_returning f k)
unfolding update_returning
update_returning-Lawful f k l d a e p w =
    subst (Good d) (ap (λ x. x.1) (some-injective p)) (updates_chains f k d l w)

pub next_sequence-Later : (current : DateTime) (r : RawChain) → Later r (next_sequence current r)
unfolding next_sequence
next_sequence-Later current r = record {
  same_id = refl;
  same_node_id = refl;
  same_config = refl;
  same_created_at = refl;
  sequence = ≤ℤ-add_one r.sequence;
  packet_sequence = ≤ℤ-refl r.packet_sequence;
}

pub next_packet_sequence-Later :
    (current : DateTime) (r : RawChain) → Later r (next_packet_sequence current r)
unfolding next_packet_sequence
next_packet_sequence-Later current r = record {
  same_id = refl;
  same_node_id = refl;
  same_config = refl;
  same_created_at = refl;
  sequence = ≤ℤ-refl r.sequence;
  packet_sequence = ≤ℤ-add_one r.packet_sequence;
}

set_details-Later :
    (details : ConnectionDetails) (current : DateTime) (r : RawChain)
    → Later r (set_details details current r)
unfolding set_details
set_details-Later details current r = record {
  same_id = refl;
  same_node_id = refl;
  same_config = refl;
  same_created_at = refl;
  sequence = ≤ℤ-refl r.sequence;
  packet_sequence = ≤ℤ-refl r.packet_sequence;
}

pub update_details-Lawful :
    (details : ConnectionDetails) (current : DateTime) (k : Text)
    → Lawful (update_details details current k)
update_details-Lawful details current k d a e p w =
    subst (Good d) (ap (λ x. x.1) (some-injective p))
      (updates_chains (set_details details current) k d (set_details-Later details current) w)

pub insert_data-Lawful : (path : Text) (bytes : Bytes) → Lawful (insert_data path bytes)
unfolding insert_data
insert_data-Lawful path bytes d a e p w =
    let (absent, q) = guarded _ _ _ p in
    let row : IbcData = record { path = path; payload = bytes } in
    subst (Good d) (ap (λ x. x.1) q) (
      changes_data d (row ∷ d.ibc_data) w
        (Distinct-insert row_path row d.ibc_data absent w.ibc_data)
        (Kept-insert row_path SamePath (λ r. refl) row d.ibc_data absent))

pub update_data-Lawful : (path : Text) (bytes : Bytes) → Lawful (update_data path bytes)
update_data-Lawful path bytes d a e p w = subst (Good d) (ap (λ x. x.1) (some-injective p)) (
    changes_data d _ w
      (Distinct-update row_path (set_payload bytes) path d.ibc_data (λ r. refl) w.ibc_data)
      (Kept-update row_path SamePath (λ r. refl) (set_payload bytes) path d.ibc_data (λ r. refl)
        (λ r. refl)))

pub insert_chain_key-Lawful :
    (id public_key : Text) (current : DateTime) → Lawful (insert_chain_key id public_key current)
unfolding insert_chain_key
insert_chain_key-Lawful id public_key current d a e p w =
    let (absent, q) = guarded _ _ _ p in
    subst (Good d) (ap (λ x. x.1) q) (
      record {
        chains = w.chains;
        ibc_data = w.ibc_data;
        chain_keys = (absent, w.chain_keys);
        chain_key_ids = (omega arith, w.chain_key_ids);
        operation_ids = w.operation_ids;
      },
      record {
        chains = Kept-refl row_id Later Later-refl d.chains;
        ibc_data = Kept-refl row_path SamePath (λ r. refl) d.ibc_data;
        chain_keys = λ j k h. has_key-more _ d.chain_keys j k h;
      },
    )

pub insert_operation-Lawful :
    (request_id : Option Text) (address denom : Text) (amount : Bytes) (type : OperationType)
    (hash : Text) (current : DateTime)
    → Lawful (insert_operation request_id address denom amount type hash current)
unfolding insert_operation
insert_operation-Lawful request_id address denom amount type hash current d a e p w =
    subst (Good d) (ap (λ x. x.1) (some-injective p)) (
      record {
        chains = w.chains;
        ibc_data = w.ibc_data;
        chain_keys = w.chain_keys;
        chain_key_ids = w.chain_key_ids;
        operation_ids = (omega arith, w.operation_ids);
      },
      record {
        chains = Kept-refl row_id Later Later-refl d.chains;
        ibc_data = Kept-refl row_path SamePath (λ r. refl) d.ibc_data;
        chain_keys = λ j k h. h;
      },
    )

-- What was ahead of the database before an operation is added is ahead of it after.
pub insert_operation-ahead :
    (request_id : Option Text) (address denom : Text) (amount : Bytes) (type : OperationType)
    (hash : Text) (current : DateTime) (d : Database) (a : ℕ) (e c : Database)
    → insert_operation request_id address denom amount type hash current d ≡ some (a, e)
    → Forward d c
    → Forward e c
unfolding insert_operation
insert_operation-ahead request_id address denom amount type hash current d a e c p k =
    subst (λ (x : Database). Forward x c) (ap (λ x. x.1) (some-injective p))
      (record { chains = k.chains; ibc_data = k.ibc_data; chain_keys = k.chain_keys })
