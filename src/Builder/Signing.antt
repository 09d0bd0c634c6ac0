-- ===== src/Builder/Signing.antt =====
-- What a proof has the signer sign.
use ibc_solo_machine.Base.{
  ℕ, refl, is_whitespace, Option, Text, Bytes, ok, ◌≡◌, sym, ap, ◌∙◌, ◌∷◌, >>=-eq-ok, ok-injective,
}
use ibc_solo_machine.Path.{apply_prefix, new_from_str}
use ibc_solo_machine.Chain.{Chain}
use ibc_solo_machine.Messages.{SignBytes, sign_bytes}
use ibc_solo_machine.Event.{signed}
use ibc_solo_machine.Event
use ibc_solo_machine.Env.{Env}
use ibc_solo_machine.Exec.{World}
use ibc_solo_machine.Exec.Runs.{Runs, bind-Runs, lift-Runs, pure-Runs, sign_message-Runs}
use ibc_solo_machine.Builder.Tx.{to_u64_timestamp}
use ibc_solo_machine.Builder.Proofs.{
  sign, timestamped_sign, prefixed_path, sign_bytes_of, prove_path,
}

module _ ⦃env : Env⦄ where
  -- The world after the signer has been asked for a signature of `bytes`.
  abbrev pub asked : Option Text → SignBytes → World → World
  asked request_id bytes w = record w {
    trace = signed request_id (Event.sign_bytes (env.encode (sign_bytes bytes))) ∷ w.trace;
  }

  sign-asked :
      (request_id : Option Text) (bytes : SignBytes) (w : World) (a : Bytes) (v : World)
      → Runs (sign request_id bytes) w a v
      → v ≡ asked request_id bytes w
  unfolding sign
  sign-asked request_id bytes w a v e =
      let (signature, u, p, q) = bind-Runs _ _ w a v e in
      sym (pure-Runs _ u a v q).1
      ∙ sign_message-Runs request_id (Event.sign_bytes (env.encode (sign_bytes bytes))) w signature
          u p

  timestamped_sign-asked :
      (chain : Chain) (bytes : SignBytes) (request_id : Option Text) (w : World) (a : Bytes)
      (v : World)
      → Runs (timestamped_sign chain bytes request_id) w a v
      → v ≡ asked request_id bytes w
  unfolding timestamped_sign
  timestamped_sign-asked chain bytes request_id w a v e =
      let (signature, u, p, q) = bind-Runs _ _ w a v e in
      let (timestamp, u', p', q') = bind-Runs _ _ u a v q in
      sym (pure-Runs _ u' a v q').1
      ∙ (sym (lift-Runs (to_u64_timestamp chain.consensus_timestamp) u timestamp u' p').1
          ∙ sign-asked request_id bytes w signature u p)

  -- The path that is signed is the key, without the prefix that stands in front of it.
  prefixed_path-found : (key : Text) → prefixed_path key ≡ ok (env.utf8_bytes key)
  unfolding prefixed_path apply_prefix is_whitespace new_from_str
  prefixed_path-found key = refl

  -- Where a proof for a key returns, it has made one call: it asked the signer to sign the bytes of
  -- the key as the path, the data, and the sequence, the timestamp and the diversifier of the chain.
  -- The timestamp of the chain is then read by `to_u64_timestamp`, and both databases are left alone.
  pub prove_path_asks :
      (chain : Chain) (key : Text) (bytes : Bytes) (request_id : Option Text) (w : World)
      (a : Bytes) (v : World)
      → Runs (prove_path chain key bytes request_id) w a v
      → (timestamp : ℕ) × (to_u64_timestamp chain.consensus_timestamp ≡ ok timestamp)
        × (v
            ≡ asked request_id
                (record {
                  sequence = chain.sequence;
                  timestamp = timestamp;
                  diversifier = chain.config.diversifier;
                  path = env.utf8_bytes key;
                  data_bytes = bytes;
                })
                w)
  unfolding prove_path sign_bytes_of
  prove_path_asks chain key bytes request_id w a v e =
      let (path, w₁, e₁, f₁) = bind-Runs _ _ w a v e in
      let (to_sign, w₂, e₂, f₂) = bind-Runs _ _ w₁ a v f₁ in
      let (p, p') = lift-Runs (prefixed_path key) w path w₁ e₁ in
      let (q, q') = lift-Runs (sign_bytes_of chain path bytes) w₁ to_sign w₂ e₂ in
      let (timestamp, t, s) = >>=-eq-ok (to_u64_timestamp chain.consensus_timestamp) _ q in
      let signs : Bytes → SignBytes = λ found. record {
        sequence = chain.sequence;
        timestamp = timestamp;
        diversifier = chain.config.diversifier;
        path = found;
        data_bytes = bytes;
      } in
      let same = ok-injective (sym p ∙ prefixed_path-found key) in
      (
        timestamp,
        t,
        timestamped_sign-asked chain to_sign request_id w₂ a v f₂
            ∙ (ap (asked request_id to_sign) (sym (p' ∙ q'))
                ∙ ap (λ b. asked request_id b w) (sym (ok-injective s) ∙ ap signs same)),
      )
