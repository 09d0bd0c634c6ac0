-- ===== src/Builder/Tx.antt =====
-- `build` of solo-machine-core/src/transaction_builder.rs: a signed transaction from its messages;
-- and `Account` of cosmos/account.rs.
use ibc_solo_machine.Base.{
  ℕ, pos, negsuc, List, [], ◌∷◌, Option, some, Text, Bytes, codes, text_eq, if◌then◌else◌, Result,
  ok, err, ok_or, external, unknown_type_url, account_not_found, invalid_timestamp,
}
use ibc_solo_machine.Chain.{Chain, DateTime}
use ibc_solo_machine.PublicKey.Convert.{to_any}
use ibc_solo_machine.Messages.{
  Any, TxBody, TxFee, SignerInfo, AuthInfo, TxRaw, BaseAccount, tx_body, auth_info, sign_doc,
}
use ibc_solo_machine.Event.{SignMessage, queried}
use ibc_solo_machine.Event
use ibc_solo_machine.Env.{Env}
use ibc_solo_machine.Exec.{
  Exec, pure, lift, or_raise, require, ◌>>=◌, ◌>>◌, call, sign_message, to_account_address,
}

-- `to_u64_timestamp`
unfoldable pub to_u64_timestamp : DateTime → Result ℕ
to_u64_timestamp (pos n) = ok n
to_u64_timestamp (negsuc n) = err invalid_timestamp

module _ ⦃env : Env⦄ where
  unfoldable pub build_tx_body : List Any → Text → TxBody
  build_tx_body messages memo = record { messages = messages; memo = memo; timeout_height = 0 }

  unfoldable pub build_auth_info : Chain → ℕ → Exec AuthInfo
  build_auth_info chain account_sequence = do
    public_key ← or_raise env.public_key external
    let signer_info : SignerInfo = record {
      public_key = some (to_any public_key);
      mode = 1;
      sequence = account_sequence;
    }
    let fee : TxFee = record {
      amount = record { denom = chain.config.fee.denom; amount = chain.config.fee.amount } ∷ [];
      gas_limit = chain.config.fee.gas_limit;
      payer = [];
      granter = [];
    }
    pure (record { signer_infos = signer_info ∷ []; fee = some fee })

  unfoldable pub build_signature : Bytes → Bytes → Text → ℕ → Option Text → Exec Bytes
  build_signature body_bytes auth_info_bytes chain_id account_number request_id =
      sign_message request_id (
        Event.sign_doc (
          env.encode (
            sign_doc (record {
              body_bytes = body_bytes;
              auth_info_bytes = auth_info_bytes;
              chain_id = chain_id;
              account_number = account_number;
            }))))

  -- `Account::from_any` and `get_base_account`, in the default build.
  unfoldable pub account_from_any : Any → Result BaseAccount
  account_from_any value =
      if text_eq value.type_url (codes "/cosmos.auth.v1beta1.BaseAccount")
      then ok_or (env.decode_base_account value.value) external
      else err unknown_type_url

  unfoldable pub get_account_details : Chain → Exec (ℕ × ℕ)
  get_account_details chain = do
    connected ← call (λ t. env.grpc_connect_ok t chain.config.grpc_addr) queried
    require connected external
    account_address ← to_account_address
    response ← call (λ t. env.query_account t account_address) queried
    found ← or_raise response external
    value ← or_raise found account_not_found
    account ← lift (account_from_any value)
    pure (account.account_number, account.sequence)

  unfoldable pub build : Chain → List Any → Text → Option Text → Exec TxRaw
  build chain messages memo request_id = do
    let body_bytes = env.encode (tx_body (build_tx_body messages memo))
    (account_number, account_sequence) ← get_account_details chain
    info ← build_auth_info chain account_sequence
    let auth_info_bytes = env.encode (auth_info info)
    signature ← build_signature body_bytes auth_info_bytes chain.id.id account_number request_id
    pure (record {
      body_bytes = body_bytes;
      auth_info_bytes = auth_info_bytes;
      signatures = signature ∷ [];
    })
