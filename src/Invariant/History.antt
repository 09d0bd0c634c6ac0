-- ===== src/Invariant/History.antt =====
-- A history of the two services: their operations run one after another, in any order.
use ibc_solo_machine.Base.{ℕ, ℤ, Bool, Option, some, Text, ◌≡◌}
use ibc_solo_machine.Identifier.{ChainId, Identifier}
use ibc_solo_machine.PublicKey.{PublicKey}
use ibc_solo_machine.Chain.{ChainConfig, RawChain}
use ibc_solo_machine.Env.{Env}
use ibc_solo_machine.Exec.{World, Exec}
use ibc_solo_machine.Exec.Keeps.{Frame, Keeps}
use ibc_solo_machine.Exec.Frames.{Reading}
use ibc_solo_machine.Store.Frames.{Writing, Committing}
use ibc_solo_machine.Store.Query.{find_row}
use ibc_solo_machine.Store.Chains.{row_id}
use ibc_solo_machine.Service.Connect.{connect}
use ibc_solo_machine.Service.Close.{close_channel}
use ibc_solo_machine.Service.Transfer.{mint_tokens, burn_tokens, history}
use ibc_solo_machine.Service.Signer.{update_signer, add, get_ibc_denom, get, get_public_keys}
use ibc_solo_machine.Service.Operations.{
  connect-Keeps, close_channel-Keeps, mint_tokens-Keeps, burn_tokens-Keeps, history-Keeps,
  update_signer-Keeps, add-Keeps, get_ibc_denom-Keeps, get-Keeps, get_public_keys-Keeps,
}
use ibc_solo_machine.Invariant.Tables.{Forward-refl, Later}
use ibc_solo_machine.Invariant.Worlds.{
  Valid, lawful, reading_lawful, writing_lawful, detailing_lawful, committing_lawful,
}

-- A transaction that is still open when a call ends is dropped.
abbrev pub dropped : World → World
dropped w = record w { working = w.stored }

module _ ⦃env : Env⦄ where
  -- One call of a service, whatever its result is.
  pub data Step (w : World) : World → Type 0 where
    connects :
        (id : ChainId) (request_id : Option Text) (memo : Text) (force : Bool)
        → Step w (dropped (connect id request_id memo force w).1)
    closes :
        (id : ChainId) (request_id : Option Text) (memo : Text)
        → Step w (dropped (close_channel id request_id memo w).1)
    mints :
        (id : ChainId) (request_id : Option Text) (amount : ℕ) (denom : Identifier)
        (receiver : Option Text) (memo : Text)
        → Step w (dropped (mint_tokens id request_id amount denom receiver memo w).1)
    burns :
        (id : ChainId) (request_id : Option Text) (amount : ℕ) (denom : Identifier) (memo : Text)
        → Step w (dropped (burn_tokens id request_id amount denom memo w).1)
    lists_operations : (limit offset : ℤ) → Step w (dropped (history limit offset w).1)
    updates_signer :
        (id : ChainId) (request_id : Option Text) (key : PublicKey) (memo : Text)
        → Step w (dropped (update_signer id request_id key memo w).1)
    adds : (config : ChainConfig) (public_key : Text) → Step w (dropped (add config public_key w).1)
    gets_denom :
        (id : ChainId) (denom : Identifier)
        → Step w (dropped (dropped (get_ibc_denom id denom w).1))
    gets : (id : ChainId) → Step w (dropped (dropped (get id w).1))
    gets_keys :
        (id : ChainId) (limit offset : ℤ) → Step w (dropped (get_public_keys id limit offset w).1)

  pub data History (w : World) : World → Type 0 where
    starts : History w w
    continues : {u v : World} → History w u → Step u v → History w v

  -- A frame that the statements keep, and the end and the closing of a channel, relates the two
  -- worlds of each step.
  module _ (F : Frame) ⦃reading : Reading F⦄ ⦃writing : Writing F⦄ ⦃committing : Committing F⦄
      (drops : (w : World) → F.Related w (dropped w))
      (closing : (id : ChainId) (request_id : Option Text) (memo : Text) (w : World)
        → F.Related w (dropped (close_channel id request_id memo w).1)) where
    ends : {A : Type 0} (m : Exec A) (w : World) → Keeps F m → F.Related w (dropped (m w).1)
    ends m w k = F.transitive w (m w).1 _ (k.at w) (drops (m w).1)

    Step-Related : {v w : World} → Step v w → F.Related v w
    Step-Related {v} (connects id r m force) =
        ends (connect id r m force) v (connect-Keeps id r m force)
    Step-Related {v} (closes id r m) = closing id r m v
    Step-Related {v} (mints id r n d c m) =
        ends (mint_tokens id r n d c m) v (mint_tokens-Keeps id r n d c m)
    Step-Related {v} (burns id r n d m) =
        ends (burn_tokens id r n d m) v (burn_tokens-Keeps id r n d m)
    Step-Related {v} (lists_operations limit offset) =
        ends (history limit offset) v (history-Keeps limit offset)
    Step-Related {v} (updates_signer id r key m) =
        ends (update_signer id r key m) v (update_signer-Keeps id r key m)
    Step-Related {v} (adds config key) = ends (add config key) v (add-Keeps config key)
    Step-Related {v} (gets_denom id denom) =
        ends (get_ibc_denom id denom) v (get_ibc_denom-Keeps id denom)
    Step-Related {v} (gets id) = ends (get id) v (get-Keeps id)
    Step-Related {v} (gets_keys id limit offset) =
        ends (get_public_keys id limit offset) v (get_public_keys-Keeps id limit offset)

    pub History-Related : {v w : World} → History v w → F.Related v w
    History-Related {v} starts = F.reflexive v
    History-Related {v} (continues {u = u} {v = w} h s) =
        F.transitive v u w (History-Related h) (Step-Related s)

  drops-lawful : (w : World) → lawful.Related w (dropped w)
  drops-lawful w k = (
    record { stored = k.stored; working = k.stored; ahead = Forward-refl w.stored },
    Forward-refl w.stored,
  )

  pub History-lawful : {v w : World} → History v w → lawful.Related v w
  History-lawful = History-Related lawful drops-lawful (λ id r m w.
      lawful.transitive w (close_channel id r m w).1 _
        ((close_channel-Keeps {F = lawful} id r m).at w) (drops-lawful (close_channel id r m w).1))

  -- From a world where the constraints hold and the open transaction is ahead of the committed
  -- database, each history keeps every committed chain under its name, with its node and its
  -- configuration, and with sequences that did not go back, whichever of its calls failed.
  pub History-Later :
      (v w : World) (id : Text) (row : RawChain)
      → Valid v
      → History v w
      → find_row row_id id v.stored.chains ≡ some row
      → (row' : RawChain) × (find_row row_id id w.stored.chains ≡ some row') × Later row row'
  History-Later v w id row valid h e = (History-lawful h valid).1.chains id row e
