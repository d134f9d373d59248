-- ===== src/Mapper/Single.antt =====
-- The modules with one message each: api/mapper/crisis.go, evidence.go and slashing.go.
use terra_worker.Prelude.{String, Bool, true, false, [], ◌∷◌}
use terra_worker.Go.Outcome.{Outcome, ok, ◌>>=◌}
use terra_worker.Structs.{SubsetFields, account, no_fields}
use terra_worker.External.{External}
use terra_worker.Mapper.Messages.{MsgBody, Address}
use terra_worker.Mapper.Messages.Assertions.{as_submit_evidence, as_unjail, as_verify_invariant}
use terra_worker.Mapper.Encoding.{
  asserted, checked, format_int, bare_transfer, encode_acc, encode_val,
}

module _ (ext : External) where
  -- an empty sender has an empty text
  unfoldable pub sender_text : Bool → Address → Outcome String
  sender_text true addr = ok ""
  sender_text false addr = checked (encode_acc ext addr) "error converting Sender"

  unfoldable pub crisis_verify_invariant_to_sub : MsgBody → Outcome SubsetFields
  unfolding sender_text
  crisis_verify_invariant_to_sub body = do
    mvi ← asserted (as_verify_invariant body) "Not a verify_invariant type"
    sender ← sender_text (ext.acc_address_empty mvi.sender) mvi.sender
    ok (record no_fields {
      type = "verify_invariant" ∷ [];
      module_name = "crisis";
      sender = bare_transfer sender ∷ [];
      additional =
          ("invariant_route", mvi.invariant_route ∷ [])
          ∷ ("invariant_module_name", mvi.invariant_module_name ∷ [])
          ∷ [];
    })

  unfoldable pub evidence_submit_evidence_to_sub : MsgBody → Outcome SubsetFields
  evidence_submit_evidence_to_sub body = do
    mse ← asserted (as_submit_evidence body) "Not a submit_evidence type"
    ok (record no_fields {
      type = "submit_evidence" ∷ [];
      module_name = "evidence";
      node = ("submitter", account (ext.acc_address_string mse.submitter) ∷ []) ∷ [];
      additional =
          ("evidence_consensus", mse.consensus_address ∷ [])
          ∷ ("evidence_height", format_int mse.height ∷ [])
          ∷ ("evidence_total_power", format_int mse.total_power ∷ [])
          ∷ ("evidence_validator_power", format_int mse.validator_power ∷ [])
          ∷ [];
    })

  unfoldable pub slashing_unjail_to_sub : MsgBody → Outcome SubsetFields
  slashing_unjail_to_sub body = do
    unjail ← asserted (as_unjail body) "Not a unjail type"
    val ← checked (encode_val ext unjail.validator_addr) "error converting ValidatorAddress"
    ok (record no_fields {
      type = "unjail" ∷ [];
      module_name = "slashing";
      node = ("validator", account val ∷ []) ∷ [];
    })
