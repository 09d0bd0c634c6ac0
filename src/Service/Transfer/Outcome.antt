-- ===== src/Service/Transfer/Outcome.antt =====
-- When `mint` and `burn` change the committed database.
use ibc_solo_machine.Base.{
  ℕ, Option, some, Text, Bytes, [], ◌∷◌, ◌++◌, append_assoc, Result, ok, err, panic, true, ◌≡◌, ◌⊎◌,
  inl, inr, refl, sym, ap, ◌∙◌, arith, external, ok-injective,
}
use ibc_solo_machine.Identifier.{Identifier, ChainId}
use ibc_solo_machine.Event.{broadcasted}
use ibc_solo_machine.Env.{Env, Trace, TxCommitResponse}
use ibc_solo_machine.Exec.{World, Exec, continue, call, lift, ◌>>=◌, broadcast_tx_commit}
use ibc_solo_machine.Exec.Keeps.{Keeps, same_stored}
use ibc_solo_machine.Exec.Growing.{growing, Grows}
use ibc_solo_machine.Exec.Frames.{broadcast-Keeps, reading_stored}
use ibc_solo_machine.Exec.Runs.{Runs, bind-Runs, or_raise-Runs}
use ibc_solo_machine.Service.Response.{ensure_response_success}
use ibc_solo_machine.Service.Transfer.{mint_tokens, burn_tokens}
use ibc_solo_machine.Service.Operations.{operation_rules}

ensure_response_success-ok :
    (r : TxCommitResponse) (hash : Text)
    → ensure_response_success r ≡ ok hash
    → (r.check_tx_ok ≡ true) × (r.tx_result_ok ≡ true)
unfolding ensure_response_success
ensure_response_success-ok r hash e = (ground (arith, e), ground (arith, e))

module _ ⦃env : Env⦄ where
  -- Between the worlds `w` and `v` the node was sent a transaction, and accepted it in both of its
  -- checks.
  pub record Accepted (w v : World) : Type 0 where
    pub bytes : Bytes
    pub response : TxCommitResponse
    pub before : Trace
    pub middle : Trace
    pub after : Trace
    pub starts : before ≡ middle ++ w.trace
    pub ends : v.trace ≡ after ++ broadcasted bytes ∷ before
    pub answers : env.broadcast before bytes ≡ some response
    pub checked : response.check_tx_ok ≡ true
    pub delivered : response.tx_result_ok ≡ true

  Accepted-later : (w u v : World) → Grows w u → Accepted u v → Accepted w v
  Accepted-later w u v g k = record {
    bytes = k.bytes;
    response = k.response;
    before = k.before;
    middle = k.middle ++ g.later;
    after = k.after;
    starts =
        k.starts
        ∙ (ap (λ t. k.middle ++ t) g.extends ∙ sym (append_assoc k.middle g.later w.trace));
    ends = k.ends;
    answers = k.answers;
    checked = k.checked;
    delivered = k.delivered;
  }

  broadcast-Runs :
      (bytes : Bytes) (w : World) (r : TxCommitResponse) (v : World)
      → Runs (broadcast_tx_commit bytes) w r v
      → (env.broadcast w.trace bytes ≡ some r) × (v.trace ≡ broadcasted bytes ∷ w.trace)
  unfolding broadcast_tx_commit call
  broadcast-Runs bytes w r v e =
      let (o, u, p, q) = bind-Runs _ _ w r v e in
      let (s, t) = or_raise-Runs o external u r v q in
      (ok-injective (ap (λ x. x.0) p) ∙ s, ap (λ x. x.trace) (sym t) ∙ ap (λ x. x.1.trace) (sym p))

  -- `m` leaves the committed database alone unless the node has accepted a transaction.
  record Guarded {A : Type 0} (m : Exec A) : Type 0 where
    at : (w : World) → ((m w).1.stored ≡ w.stored) ⊎ Accepted w (m w).1

  module _ {A B : Type 0} where
    Guarded-continue :
        (r : Result A) (f : A → Exec B) (v w : World)
        → w.stored ≡ v.stored
        → Grows v w
        → ((a : A) → Guarded (f a))
        → ((continue r f w).1.stored ≡ v.stored) ⊎ Accepted v (continue r f w).1
    Guarded-continue (ok a) f v w p g k = elim ((k a).at w) [
      | inl q ↦ inl (q ∙ p)
      | inr q ↦ inr (Accepted-later v w _ g q)
    ]
    Guarded-continue (err e) f v w p g k = inl p
    Guarded-continue panic f v w p g k = inl p

    Guarded-bind :
        (m : Exec A) (f : A → Exec B)
        → Keeps same_stored m
        → Keeps growing m
        → ((a : A) → Guarded (f a))
        → Guarded (m >>= f)
    unfolding ◌>>=◌
    Guarded-bind m f km gm kf = record {
      at = λ w. Guarded-continue (m w).0 f w (m w).1 (km.at w) (gm.at w) kf;
    }

  module _ {B : Type 0} (f : TxCommitResponse → Text → Exec B)
      (grows : (r : TxCommitResponse) (hash : Text) → Keeps growing (f r hash)) where
    -- The check of a response that was received.
    Guarded-response :
        (bytes : Bytes) (u v : World) (r : TxCommitResponse) (h : Result Text)
        → Runs (broadcast_tx_commit bytes) u r v
        → v.stored ≡ u.stored
        → ensure_response_success r ≡ h
        → ((continue h (f r) v).1.stored ≡ u.stored) ⊎ Accepted u (continue h (f r) v).1
    Guarded-response bytes u v r (ok hash) e p q =
        let (c, d) = ensure_response_success-ok r hash q in
        let (answers, sent) = broadcast-Runs bytes u r v e in
        let g = (grows r hash).at v in
        inr (record {
          bytes = bytes;
          response = r;
          before = u.trace;
          middle = [];
          after = g.later;
          starts = refl;
          ends = g.extends ∙ ap (λ t. g.later ++ t) sent;
          answers = answers;
          checked = c;
          delivered = d;
        })
    Guarded-response bytes u v r (err x) e p q = inl p
    Guarded-response bytes u v r panic e p q = inl p

    Guarded-outcome :
        (bytes : Bytes) (u v : World) (o : Result TxCommitResponse)
        → broadcast_tx_commit bytes u ≡ (o, v)
        → v.stored ≡ u.stored
        → ((continue o (λ r. lift (ensure_response_success r) >>= f r) v).1.stored ≡ u.stored)
          ⊎ Accepted u (continue o (λ r. lift (ensure_response_success r) >>= f r) v).1
    unfolding ◌>>=◌
    Guarded-outcome bytes u v (ok r) e p = Guarded-response bytes u v r _ e p refl
    Guarded-outcome bytes u v (err x) e p = inl p
    Guarded-outcome bytes u v panic e p = inl p

    Guarded-broadcast :
        (bytes : Bytes)
        → Guarded (broadcast_tx_commit bytes >>= λ r. lift (ensure_response_success r) >>= f r)
    unfolding ◌>>=◌
    Guarded-broadcast bytes = record {
      at = λ w. Guarded-outcome bytes w _ _ refl ((broadcast-Keeps {F = same_stored} bytes).at w);
    }

  mint_tokens-Guarded :
      (chain_id : ChainId) (request_id : Option Text) (amount : ℕ) (denom : Identifier)
      (receiver : Option Text) (memo : Text)
      → Guarded (mint_tokens chain_id request_id amount denom receiver memo)
  unfolding mint_tokens
  mint_tokens-Guarded chain_id request_id amount denom receiver memo =
      search (Guarded-bind, Guarded-broadcast, operation_rules) depth 40

  burn_tokens-Guarded :
      (chain_id : ChainId) (request_id : Option Text) (amount : ℕ) (denom : Identifier)
      (memo : Text)
      → Guarded (burn_tokens chain_id request_id amount denom memo)
  unfolding burn_tokens
  burn_tokens-Guarded chain_id request_id amount denom memo =
      search (Guarded-bind, Guarded-broadcast, operation_rules) depth 40

  -- `mint` and `burn` each leave the committed database alone, unless the node, between their start
  -- and their end, was sent a transaction and accepted it in both of its checks.
  pub transfers_change_after_acceptance :
      (chain_id : ChainId) (request_id : Option Text) (amount : ℕ) (denom : Identifier)
      (receiver : Option Text) (memo : Text) (w : World)
      → (((mint_tokens chain_id request_id amount denom receiver memo w).1.stored ≡ w.stored)
          ⊎ Accepted w (mint_tokens chain_id request_id amount denom receiver memo w).1)
        × (((burn_tokens chain_id request_id amount denom memo w).1.stored ≡ w.stored)
            ⊎ Accepted w (burn_tokens chain_id request_id amount denom memo w).1)
  transfers_change_after_acceptance chain_id request_id amount denom receiver memo w = (
    (mint_tokens-Guarded chain_id request_id amount denom receiver memo).at w,
    (burn_tokens-Guarded chain_id request_id amount denom memo).at w,
  )
