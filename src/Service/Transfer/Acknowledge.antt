-- ===== src/Service/Transfer/Acknowledge.antt =====
-- What a round of `process_packets` commits.
use ibc_solo_machine.Base.{Option, some, Text, err, Error, ◌≡◌, sym, ap, ◌∙◌}
use ibc_solo_machine.Chain.{Chain, RawChain, DateTime}
use ibc_solo_machine.Messages.{TxRaw, Packet, tx_raw}
use ibc_solo_machine.Env.{Env, TxCommitResponse}
use ibc_solo_machine.Exec.{
  World, transaction, pure, lift, ◌>>=◌, begin, commit, broadcast_tx_commit,
}
use ibc_solo_machine.Exec.Reading.{same_working}
use ibc_solo_machine.Exec.Frames.{broadcast-Keeps, reading_working}
use ibc_solo_machine.Exec.Runs.{Runs, Runs-bind, lift_err-bind, begin-Runs, commit-Runs}
use ibc_solo_machine.Store.Query.{find_row}
use ibc_solo_machine.Store.Chains.{row_id, next_sequence}
use ibc_solo_machine.Builder.Packet.{msg_token_receive_ack}
use ibc_solo_machine.Builder.Sequence.{Keeps-Runs, msg_token_receive_ack-Replaces}
use ibc_solo_machine.Service.Response.{ensure_response_success}
use ibc_solo_machine.Service.Transfer.{acknowledge_packet}

-- The steps of a round up to the commit, all of which return, and the node's response.
module _ ⦃env : Env⦄ (chain : Chain) (packet : Packet) (memo : Text) (request_id : Option Text)
    (response : TxCommitResponse) (tx : TxRaw) (chain' : Chain) (w begun built sent closed : World)
    (begins : Runs begin w tt begun)
    (builds : Runs
      (msg_token_receive_ack transaction chain packet memo request_id)
      begun
      (tx, chain')
      built)
    (sends : Runs (broadcast_tx_commit (env.encode (tx_raw tx))) built response sent)
    (commits : Runs commit sent tt closed) where
  acknowledge_packet-Runs :
      acknowledge_packet chain packet memo request_id w
      ≡ (lift (ensure_response_success response) >>= λ hash. pure chain') closed
  unfolding acknowledge_packet
  acknowledge_packet-Runs =
      Runs-bind begin _ w tt begun begins
      ∙ (Runs-bind (msg_token_receive_ack transaction chain packet memo request_id) _ begun
            (tx, chain') built builds
          ∙ (Runs-bind (broadcast_tx_commit (env.encode (tx_raw tx))) _ built response sent sends
              ∙ Runs-bind commit _ sent tt closed commits))

  -- When a round of `process_packets` builds, broadcasts and commits, and the node's response is a
  -- refusal, the round ends in the error of the refusal, and the row of the chain in the committed
  -- database has the next sequence all the same.
  pub acknowledge_packet_commits_refused :
      (e : Error)
      → ensure_response_success response ≡ err e
      → ((acknowledge_packet chain packet memo request_id w).0 ≡ err e)
        × (row : RawChain) × (current : DateTime) × (find_row row_id chain.id.id w.stored.chains
            ≡ some row)
        × (find_row row_id chain.id.id
              (acknowledge_packet chain packet memo request_id w).1.stored.chains
            ≡ some (next_sequence current row))
  acknowledge_packet_commits_refused e refused =
      let run =
        acknowledge_packet-Runs
        ∙ lift_err-bind (ensure_response_success response) (λ hash. pure chain') e closed refused in
      let (current, r) =
        msg_token_receive_ack-Replaces chain packet memo request_id begun tx chain' built builds in
      let stored =
        ap (λ x. x.1.stored) run
        ∙ (commit-Runs sent tt closed commits
            ∙ Keeps-Runs (broadcast_tx_commit (env.encode (tx_raw tx))) built response sent
                (broadcast-Keeps {F = same_working} (env.encode (tx_raw tx))) sends) in
      (
        ap (λ x. x.0) run,
        r.before,
        current,
        ap (λ d. find_row row_id chain.id.id d.chains) (sym (begin-Runs w tt begun begins))
            ∙ r.found_before,
        ap (λ d. find_row row_id chain.id.id d.chains) stored ∙ r.found_after,
      )
