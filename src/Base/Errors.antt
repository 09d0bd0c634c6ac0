-- ===== src/Base/Errors.antt =====
-- `anyhow::Result`, with a constructor for a panic, and an error for each message of the source.
use mathlib.Core.Path.{◌≡◌, refl}
use mathlib.Core.Bool.{Bool, true, false}
use mathlib.Core.Option.{Option, none, some}

-- `external` is an error that another crate returns and `?` passes on.
pub data Error : Type 0 where
  external : Error
  blank_identifier separator_in_identifier invalid_identifier invalid_length : Error
  invalid_height invalid_integer empty_prefix invalid_path : Error
  missing_bit_array bit_array_size signature_size too_few_signatures : Error
  missing_signature_data signature_length invalid_signature_type unknown_type_url : Error
  invalid_key_length : Error
  rows_affected invalid_node_id invalid_amount_length : Error
  chain_not_found connection_not_established already_established : Error
  channel_not_found connection_not_found client_not_found : Error
  channel_already_closed wrong_channel_closed : Error
  check_tx_failed deliver_tx_failed attribute_not_found : Error
  missing_packet_attribute invalid_packet_attribute : Error
  invalid_source_port invalid_source_channel : Error
  invalid_destination_port invalid_destination_channel : Error
  mint_failed height_overflow invalid_timestamp not_caught_up : Error
  missing_timeout_height account_not_found missing_base_account : Error
  missing_staking_params missing_latest_height notifier_closed : Error
  missing_config missing_trusted_height missing_trusted_hash negative_duration : Error
  empty_trusted_hash trusted_hash_length invalid_limit invalid_offset : Error
  invalid_public_key_algo invalid_output_type : Error
  missing_signer missing_db_uri : Error
  missing_variable invalid_mnemonic invalid_hd_path invalid_address_algo : Error

-- `panic` is an unwinding: `unwrap` on nothing, an index out of bounds, `todo!`.
pub data Result {ℓ} (T : Type ℓ) : Type ℓ where
  ok : T → Result T
  panic : Result T
  err : Error → Result T

-- `ensure!`
abbrev pub ensure : Bool → Error → Result (Unit {0})
ensure false reason = err reason
ensure true reason = ok tt

-- The operator `?` of Rust.
infixl 5 ◌>>=◌
abbrev pub ◌>>=◌ {ℓ κ} : {T : Type ℓ} {U : Type κ} → Result T → (T → Result U) → Result U
panic >>= rest = panic
err reason >>= rest = err reason
ok t >>= rest = rest t

infixl 5 ◌>>◌
abbrev pub ◌>>◌ {κ} : {U : Type κ} → Result (Unit {0}) → Result U → Result U
first >> rest = first >>= λ _. rest

-- `ok_or_else`
abbrev pub ok_or {ℓ} : {A : Type ℓ} → Option A → Error → Result A
ok_or none e = err e
ok_or (some a) e = ok a

-- `unwrap` of an `Option`, and of a `Result`.
abbrev pub unwrap {ℓ} : {A : Type ℓ} → Option A → Result A
unwrap none = panic
unwrap (some a) = ok a

abbrev pub unwrap_result {ℓ} : {A : Type ℓ} → Result A → Result A
unwrap_result (ok a) = ok a
unwrap_result (err e) = panic
unwrap_result panic = panic

-- Where `?` went on to a value, there was a value in front of it.
pub >>=-eq-ok {ℓ κ} :
    {T : Type ℓ} {U : Type κ} (r : Result T) (rest : T → Result U) {u : U}
    → (r >>= rest) ≡ ok u
    → (t : T) × (r ≡ ok t) × (rest t ≡ ok u)
>>=-eq-ok panic rest e = cc
>>=-eq-ok (ok t) rest e = (t, refl, e)
>>=-eq-ok (err reason) rest e = cc

pub ok-injective {ℓ} : {A : Type ℓ} {a b : A} → ok a ≡ ok b → a ≡ b
ok-injective h = cc

-- Splits on a result, keeping the equation.
pub data ResultView {ℓ} {A : Type ℓ} (r : Result A) : Type ℓ where
  is_ok : (a : A) → r ≡ ok a → ResultView r
  is_err : (e : Error) → r ≡ err e → ResultView r
  is_panic : r ≡ panic → ResultView r

pub Result-view {ℓ} : {A : Type ℓ} (r : Result A) → ResultView r
Result-view (ok a) = is_ok a refl
Result-view (err e) = is_err e refl
Result-view panic = is_panic refl
