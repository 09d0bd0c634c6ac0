-- ===== src/MnemonicSigner.antt =====
-- signers/mnemonic-signer/src/lib.rs: a signer whose key is derived from a phrase. Its algorithm has
-- one value without the feature `ethermint`.
pub mod Accepted
use ibc_solo_machine.Base.{
  Option, none, some, Text, Bytes, codes, text_eq, unwrap_or, Result, ok, err, panic, ok_or, ensure,
  unwrap, ◌>>=◌, ◌>>◌, missing_variable, invalid_mnemonic, invalid_hd_path, invalid_address_algo,
}
use ibc_solo_machine.PublicKey.{PublicKey, secp256k1}
use ibc_solo_machine.PublicKey.Convert.{account_address}
use ibc_solo_machine.Event.{SignMessage, message_bytes}
use ibc_solo_machine.Env.{Env}

-- The environment, and the crates `bip32` and `k256`; a phrase, a path and a key are what they are
-- written as.
pub record Wallet : Type 0 where
  pub env_var : Text → Option Text
  -- `Mnemonic::new`, and its `to_seed` with an empty password.
  pub parse_mnemonic : Text → Option Text
  pub to_seed : Text → Bytes
  -- `DerivationPath::from_str`, and `derive_from_path`.
  pub parse_path : Text → Option Text
  pub derive_from_path : Bytes → Text → Option Bytes
  -- The verifying key of a signing key, and a signature by it.
  pub verifying_key : Bytes → Bytes
  pub sign : Bytes → Bytes → Bytes

pub record MnemonicSigner : Type 0 where
  pub mnemonic : Text
  pub hd_path : Text
  pub account_prefix : Text

-- `AddressAlgo::from_str`
unfoldable pub parse_address_algo : Text → Result (Unit {0})
parse_address_algo s = ensure (text_eq s (codes "secp256k1")) invalid_address_algo

module _ ⦃wallet : Wallet⦄ where
  unfoldable pub from_env : Result MnemonicSigner
  from_env = do
    mnemonic_text ← ok_or (wallet.env_var (codes "SOLO_MNEMONIC")) missing_variable
    mnemonic ← ok_or (wallet.parse_mnemonic mnemonic_text) invalid_mnemonic
    parse_address_algo (unwrap_or (wallet.env_var (codes "SOLO_ADDRESS_ALGO")) (codes "secp256k1"))
    ok (record {
      mnemonic = mnemonic;
      hd_path = unwrap_or (wallet.env_var (codes "SOLO_HD_PATH")) (codes "m/44'/118'/0'/0/0");
      account_prefix = unwrap_or (wallet.env_var (codes "SOLO_ACCOUNT_PREFIX")) (codes "cosmos");
    })

  unfoldable pub get_signing_key : MnemonicSigner → Result Bytes
  get_signing_key signer = do
    hd_path ← ok_or (wallet.parse_path signer.hd_path) invalid_hd_path
    unwrap (wallet.derive_from_path (wallet.to_seed signer.mnemonic) hd_path)

  unfoldable pub to_public_key : MnemonicSigner → Result PublicKey
  to_public_key signer = do
    signing_key ← get_signing_key signer
    ok (secp256k1 (wallet.verifying_key signing_key))

  unfoldable pub to_account_address : ⦃env : Env⦄ → MnemonicSigner → Result Text
  to_account_address signer = do
    key ← to_public_key signer
    account_address signer.account_prefix key

  unfoldable pub sign : MnemonicSigner → Option Text → SignMessage → Result Bytes
  sign signer request_id message = do
    signing_key ← get_signing_key signer
    ok (wallet.sign signing_key (message_bytes message))
