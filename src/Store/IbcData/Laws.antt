-- ===== src/Store/IbcData/Laws.antt =====
-- What is found under a path of the table `ibc_data`.
use ibc_solo_machine.Base.{
  ℕ, Option, some, is_some, Text, Bytes, ◌≡◌, sym, ap, ◌∙◌, arith, ok, text_eq_refl, Bool-cases,
  inl, inr, if_true, if_false,
}
use ibc_solo_machine.Identifier.{ChannelId, PortId}
use ibc_solo_machine.Path.{channel_key}
use ibc_solo_machine.Messages.{Channel, channel}
use ibc_solo_machine.Env.{Env}
use ibc_solo_machine.Database.{Database}
use ibc_solo_machine.Exec.{World, transaction}
use ibc_solo_machine.Exec.Runs.{
  Runs, bind-Runs, lift-Runs, require-Runs, select-Runs, execute-Runs, some_pair,
}
use ibc_solo_machine.Store.Query.{find_row}
use ibc_solo_machine.Store.IbcData.{
  row_path, insert_data, decode_row, add, get, add_channel, get_channel,
}

-- An insertion that succeeds is found.
insert_data-found :
    (path : Text) (bytes : Bytes) (d d' : Database) (n : ℕ)
    → insert_data path bytes d ≡ some (n, d')
    → find_row row_path path d'.ibc_data ≡ some (record { path = path; payload = bytes })
unfolding insert_data find_row
insert_data-found path bytes d d' n e =
    elim (Bool-cases (is_some (find_row row_path path d.ibc_data))) [
      | inl b ↦ ground (arith, sym (if_true _ _ _ b) ∙ e)
      | inr b ↦
          ap (λ x. find_row row_path path x.ibc_data)
            (sym (some_pair (sym (if_false _ _ _ b) ∙ e)).1)
          ∙ if_true _ _ _ (text_eq_refl path)
    ]

module _ ⦃env : Env⦄ where
  get-add :
      {A : Type 0} (decode : Bytes → Option A) (path : Text) (bytes : Bytes) (w u v : World)
      (a : Unit {0}) (found : Option A)
      → Runs (add transaction path bytes) w a u
      → Runs (get decode transaction path) u found v
      → decode_row decode (some (record { path = path; payload = bytes })) ≡ ok found
  unfolding add get
  get-add decode path bytes w u v a found e f =
      let (n, w₁, e₁, e₂) = bind-Runs _ _ w a u e in
      let (row, u₁, f₁, f₂) = bind-Runs _ _ u found v f in
      let p = insert_data-found path bytes w.working w₁.working n (execute-Runs _ w n w₁ e₁) in
      let (_, same) = require-Runs _ _ w₁ a u e₂ in
      let (q, _) = select-Runs _ u row u₁ f₁ in
      ap (decode_row decode)
        (sym p ∙ (ap (λ x. find_row row_path path x.working.ibc_data) same ∙ q))
      ∙ (lift-Runs (decode_row decode row) u₁ found v f₂).0

  -- After a channel is added, `get_channel` of its port and its identifier, run next in the
  -- transaction, finds this channel where it returns, if the channel's encoding is decoded to it.
  pub get_channel-add_channel :
      (port_id : PortId) (id : ChannelId) (end : Channel) (w u v : World) (a : Unit {0})
      (found : Option Channel)
      → env.decode_channel (env.encode (channel end)) ≡ some end
      → Runs (add_channel transaction port_id id end) w a u
      → Runs (get_channel transaction port_id id) u found v
      → found ≡ some end
  unfolding add_channel get_channel
  get_channel-add_channel port_id id end w u v a found decodes e f =
      let p =
        get-add env.decode_channel (channel_key port_id id) (env.encode (channel end)) w u v a found
          e f in
      ground (arith, p, decodes)
