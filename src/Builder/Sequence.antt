-- ===== src/Builder/Sequence.antt =====
-- The sequence that a message signs with, and the sequence that it leaves behind.
use ibc_solo_machine.Base.{Option, Text, ◌≡◌, refl, sym, ap, ◌∙◌, subst, external}
use ibc_solo_machine.Identifier.{ChainId}
use ibc_solo_machine.Chain.{Chain, RawChain, DateTime}
use ibc_solo_machine.Messages.{TxRaw, Packet}
use ibc_solo_machine.Env.{Env}
use ibc_solo_machine.Exec.{World, Exec, transaction, pure, or_raise, ◌>>=◌}
use ibc_solo_machine.Exec.Keeps.{Keeps}
use ibc_solo_machine.Exec.Reading.{same_working}
use ibc_solo_machine.Exec.Runs.{Runs, bind-Runs, pure-Runs}
use ibc_solo_machine.Store.Query.{find_row}
use ibc_solo_machine.Store.Chains.{row_id, next_sequence, increment_sequence}
use ibc_solo_machine.Store.Chains.Laws.{Replaces, increment_sequence-Replaces}
use ibc_solo_machine.Builder.Proofs.{get_packet_acknowledgement_proof}
use ibc_solo_machine.Builder.Frames.{builder_rules}
use ibc_solo_machine.Builder.Packet.{msg_token_receive_ack}

module _ ⦃env : Env⦄ where
  pub Keeps-Runs :
      {A : Type 0} (m : Exec A) (w : World) (a : A) (v : World)
      → Keeps same_working m
      → Runs m w a v
      → v.working ≡ w.working
  Keeps-Runs m w a v k e = ap (λ r. r.1.working) (sym e) ∙ k.at w

  Replaces-frame :
      (f : RawChain → RawChain) (id : ChainId) (w w' : World) (c : Chain) (v v' : World)
      → w'.working ≡ w.working
      → v'.working ≡ v.working
      → Replaces f id w' c v
      → Replaces f id w c v'
  Replaces-frame f id w w' c v v' p q r = record {
    before = r.before;
    found_before = ap (λ d. find_row row_id id.id d.chains) (sym p) ∙ r.found_before;
    found_after = ap (λ d. find_row row_id id.id d.chains) q ∙ r.found_after;
    decoded = r.decoded;
  }

  -- Code that takes the next sequence, and then reads and returns the chain.
  increment-then :
      (id : ChainId) (f : Chain → Exec (TxRaw × Chain)) (w : World) (p : TxRaw × Chain) (v : World)
      → ((c : Chain) → Keeps same_working (f c))
      → ((c : Chain) (u : World) (q : TxRaw × Chain) (v : World) → Runs (f c) u q v → q.1 ≡ c)
      → Runs (increment_sequence transaction id >>= f) w p v
      → (current : DateTime) × Replaces (next_sequence current) id w p.1 v
  increment-then id f w p v keeps returns e =
      let (c, u, e₁, e₂) = bind-Runs (increment_sequence transaction id) f w p v e in
      let (current, r) = increment_sequence-Replaces id w c u e₁ in
      (
        current,
        subst (λ (x : Chain). Replaces (next_sequence current) id w x v) (sym (returns c u p v e₂))
            (Replaces-frame (next_sequence current) id w w c u v refl
              (Keeps-Runs (f c) u p v (keeps c) e₂) r),
      )

  -- The last two steps of a message.
  build-returns :
      (o : Option Text) (m : Text → Exec TxRaw) (c : Chain) (u : World) (q : TxRaw × Chain)
      (v : World)
      → Runs (or_raise o external >>= (λ s. m s >>= λ tx. pure (tx, c))) u q v
      → q.1 ≡ c
  build-returns o m c u q v e =
      let (s, u₁, e₁, f₁) =
        bind-Runs (or_raise o external) (λ s. m s >>= λ tx. pure (tx, c)) u q v e in
      let (tx, u₂, e₂, f₂) = bind-Runs (m s) (λ tx. pure (tx, c)) u₁ q v f₁ in
      ap (λ x. x.1) (sym (pure-Runs (tx, c) u₂ q v f₂).0)

  pub msg_token_receive_ack-Replaces :
      (chain : Chain) (packet : Packet) (memo : Text) (request_id : Option Text) (w : World)
      (tx : TxRaw) (chain' : Chain) (v : World)
      → Runs (msg_token_receive_ack transaction chain packet memo request_id) w (tx, chain') v
      → (current : DateTime) × Replaces (next_sequence current) chain.id w chain' v
  unfolding msg_token_receive_ack
  msg_token_receive_ack-Replaces chain packet memo request_id w tx chain' v e =
      let (proof, w₁, e₁, f₁) = bind-Runs _ _ w _ v e in
      let stay =
        Keeps-Runs (get_packet_acknowledgement_proof chain env.ack_json packet.sequence request_id)
          w proof w₁ (search builder_rules) e₁ in
      let (current, r) =
        increment-then chain.id _ w₁ (tx, chain') v (λ c. search builder_rules depth 20)
          (λ c u q t k. build-returns _ _ c u q t k) f₁ in
      (current, Replaces-frame (next_sequence current) chain.id w w₁ chain' v v stay refl r)
