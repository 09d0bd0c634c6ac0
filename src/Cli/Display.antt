-- ===== src/Cli/Display.antt =====
-- `chain get` and the channels of a chain.
use ibc_solo_machine.Base.{
  ℤ, pos, negsuc, Bool, true, false, Option, none, some, List, Text, ◌≡◌, refl, sym, ap, ◌∙◌, arith,
  Result, ok, err, panic, ok_or, Error, inl, inr, Bool-cases, ensure, ◌>>=◌ as ◌>>=ᵣ◌,
}
use ibc_solo_machine.Identifier.{ChainId, parse, parse_chain_id, validate_length}
use ibc_solo_machine.Chain.{Chain, ConnectionDetails, RawChain}
use ibc_solo_machine.Env.{Env}
use ibc_solo_machine.Crates.{Crates}
use ibc_solo_machine.Database.{empty}
use ibc_solo_machine.Exec.{World, pool, select, ◌>>=◌ as ◌>>=ₑ◌}
use ibc_solo_machine.Exec
use ibc_solo_machine.Exec.Runs.{bind-Runs, lift-Runs, select_pool-Runs}
use ibc_solo_machine.Store.Chains.Decoded.{transpose-some, chain_of_raw-Decoded}
use ibc_solo_machine.Service.Signer
use ibc_solo_machine.Store.Chains.{chain_of_raw, transpose, u32_of_i64, get_chain}
use ibc_solo_machine.Store.Frames.{HasChannels}
use ibc_solo_machine.Invariant.History.{History}
use ibc_solo_machine.Invariant.Details.{Complete}
use ibc_solo_machine.Invariant.Channels.{History-Complete}
use ibc_solo_machine.Cli.{
  OutputType, text, json, Item, Session, Shell, lift, print, core, continue_shell, ◌>>=◌,
}
use ibc_solo_machine.Cli.Chains.{connection_rows, show_chain, get, execute}

module _ {A : Type 0} where
  -- The result is no panic.
  abbrev pub calm : Result A → Bool
  calm (ok a) = true
  calm (err e) = true
  calm panic = false

module _ {A B : Type 0} where
  calm-bind :
      (r : Result A) (f : A → Result B)
      → calm r ≡ true
      → ((a : A) → calm (f a) ≡ true)
      → calm (r >>=ᵣ f) ≡ true
  calm-bind (ok a) f p k = k a
  calm-bind (err e) f p k = refl
  calm-bind panic f p k = ground (arith, p)

module _ {A B : Type 0} where
  calm-continue :
      (r : Result A) (f : A → Shell B) (s : Session)
      → calm r ≡ true
      → ((a : A) → r ≡ ok a → calm (f a s).0 ≡ true)
      → calm (continue_shell r f s).0 ≡ true
  calm-continue (ok a) f s p k = k a refl
  calm-continue (err e) f s p k = refl
  calm-continue panic f s p k = ground (arith, p)

  calm-shell :
      (m : Shell A) (f : A → Shell B) (s : Session)
      → calm (m s).0 ≡ true
      → ((a : A) (t : Session) → (m s).0 ≡ ok a → calm (f a t).0 ≡ true)
      → calm ((m >>= f) s).0 ≡ true
  unfolding ◌>>=◌
  calm-shell m f s p k = calm-continue (m s).0 f (m s).1 p (λ a e. k a (m s).1 e)

calm-ensure : (b : Bool) (e : Error) → calm (ensure b e) ≡ true
calm-ensure true e = refl
calm-ensure false e = refl

calm-ok_or : {A : Type 0} (o : Option A) (e : Error) → calm (ok_or o e) ≡ true
calm-ok_or none e = refl
calm-ok_or (some a) e = refl

ruleset calm_rules = (calm-bind, calm-ensure, calm-ok_or)

calm-parse_chain_id : (s : Text) → calm (parse_chain_id s) ≡ true
unfolding parse_chain_id parse validate_length
calm-parse_chain_id s = search calm_rules depth 30

calm-u32_of_i64 : (z : ℤ) → calm (u32_of_i64 z) ≡ true
unfolding u32_of_i64
calm-u32_of_i64 (pos n) = ground arith
calm-u32_of_i64 (negsuc n) = refl

module _ ⦃env : Env⦄ where
  calm-chain_of_raw : (raw : RawChain) → calm (chain_of_raw raw) ≡ true
  unfolding chain_of_raw
  calm-chain_of_raw raw = search (calm_rules, calm-parse_chain_id, calm-u32_of_i64) depth 30

  calm-transpose : (o : Option RawChain) → calm (transpose o) ≡ true
  unfolding transpose
  calm-transpose none = refl
  calm-transpose (some raw) = search (calm_rules, calm-chain_of_raw) depth 30

  get_chain-calm : (id : ChainId) (w : World) → calm (get_chain pool id w).0 ≡ true
  unfolding get_chain ◌>>=ₑ◌ select Exec.lift
  get_chain-calm id w = elim (Bool-cases (env.statement_ok w.trace)) [
    | inl b ↦ rw b (calm-transpose _)
    | inr b ↦ rw b refl
  ]

  -- A chain that is found has both channels where its row is complete.
  get_chain-HasChannels :
      (id : ChainId) (w : World) (c : Chain)
      → Complete w.stored
      → (get_chain pool id w).0 ≡ ok (some c)
      → (details : ConnectionDetails) → c.connection_details ≡ some details
      → HasChannels details
  unfolding get_chain
  get_chain-HasChannels id w c whole e details p =
      let (row, u, e₁, f₁) =
        bind-Runs _ _ w (some c) _ (ap (λ r. (r, (get_chain pool id w).1)) e) in
      let found = select_pool-Runs _ w row u e₁ in
      let (t, _) = lift-Runs (transpose row) u (some c) _ f₁ in
      let (raw, q, d) = transpose-some row c t in
      whole id.id raw (found ∙ q) details (sym (chain_of_raw-Decoded raw c d).details_of ∙ p)

module _ ⦃env : Env⦄ ⦃crates : Crates⦄ where
  connection_rows-calm :
      (o : Option ConnectionDetails)
      → ((details : ConnectionDetails) → o ≡ some details → HasChannels details)
      → calm (connection_rows o) ≡ true
  unfolding connection_rows
  connection_rows-calm none h = refl
  connection_rows-calm (some details) h = let (p, q) = h details refl in ground (arith, p, q)

  print-calm : (item : Item) (s : Session) → calm (print item s).0 ≡ true
  unfolding print
  print-calm item s = ground arith

  show_chain-calm :
      (output : OutputType) (id : ChainId) (found : Option Chain) (s : Session)
      → ((c : Chain) (details : ConnectionDetails)
          → found ≡ some c
          → c.connection_details ≡ some details
          → HasChannels details)
      → calm (show_chain output id found s).0 ≡ true
  unfolding show_chain lift
  show_chain-calm text id none s h = print-calm _ s
  show_chain-calm json id none s h = print-calm _ s
  show_chain-calm text id (some c) s h =
      calm-shell _ _ s (connection_rows-calm c.connection_details (λ d p. h c d refl p))
        (λ a t e. print-calm _ t)
  show_chain-calm json id (some c) s h = print-calm _ s

  -- Where both databases are empty at first, `chain get` does not panic after any history: the
  -- channels that its table unwraps are there. It returns or raises an error, in both formats.
  pub get_never_panics :
      (v w : World) (id : ChainId) (output : OutputType) (printed : List Item)
      → v.stored ≡ empty
      → v.working ≡ empty
      → History v w
      → calm (execute (get id) output (record { world = w; stdout = printed })).0 ≡ true
  unfolding execute Signer.get core
  get_never_panics v w id output printed p q h =
      calm-shell _ _ (record { world = w; stdout = printed }) (get_chain-calm id w)
        (λ found t e. show_chain-calm output id found t (λ c details f d.
          get_chain-HasChannels id w c (History-Complete v w p q h) (e ∙ ap ok f) details d))
