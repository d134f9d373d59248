-- ===== src/Api/Dispatch.antt =====
-- `getSubEvent` of api/transaction.go: from a message to the mapper of its route and type.
pub mod Supported
pub mod Cases
pub mod Labels
pub mod Exec
mod Examples
use Prim.Native.String.{◌++◌ as append}
use terra_worker.Prelude.{String, List, if◌then◌else◌, str_eq}
use terra_worker.Go.Outcome.{Outcome, ok, err, panic, wrap, unknown_message_type, ◌>>=◌}
use terra_worker.Structs.{SubsetFields, SubsetEvent, SubsetEvents, subset}
use terra_worker.Structs
use terra_worker.Api.Types.{LogFormat}
use terra_worker.External.{External}
use terra_worker.Mapper.Messages.{Msg, MsgBody, Msgs, msg, cons, nil, multi_send, exec_authorized}
use terra_worker.Mapper.Bank.Sends.{bank_multisend_to_sub, bank_send_to_sub}
use terra_worker.Mapper.Single.{
  crisis_verify_invariant_to_sub, evidence_submit_evidence_to_sub, slashing_unjail_to_sub,
}
use terra_worker.Mapper.Distribution.{
  distribution_withdraw_validator_commission_to_sub, distribution_set_withdraw_address_to_sub,
  distribution_withdraw_delegator_reward_to_sub, distribution_fund_community_pool_to_sub,
}
use terra_worker.Mapper.Gov.{gov_deposit_to_sub, gov_vote_to_sub, gov_submit_proposal_to_sub}
use terra_worker.Mapper.Market.{market_swap_to_sub, market_swap_send_to_sub}
use terra_worker.Mapper.Msgauth.{
  msgauth_exec_authorized_to_sub, msgauth_grant_authorization_to_sub,
  msgauth_revoke_authorization_to_sub,
}
use terra_worker.Mapper.Oracle.{
  oracle_exchange_rate_vote_to_sub, oracle_exchange_rate_prevote_to_sub,
  oracle_delegate_feed_consent, oracle_aggregate_exchange_rate_prevote_to_sub,
  oracle_aggregate_exchange_rate_vote_to_sub,
}
use terra_worker.Mapper.Staking.{
  staking_undelegate_to_sub, staking_delegate_to_sub, staking_begin_redelegate_to_sub,
  staking_create_validator_to_sub, staking_edit_validator_to_sub,
}
use terra_worker.Mapper.Wasm.{
  wasm_execute_contract_to_sub, wasm_store_code_to_sub, wasm_msg_update_contract_owner_to_sub,
  wasm_msg_instantiate_contract_to_sub, wasm_msg_migrate_contract_to_sub,
}

-- an event of a mapper, which has no events below it
unfoldable pub leaf : Outcome SubsetFields → Outcome SubsetEvent
leaf (ok se) = ok (subset se Structs.nil)
leaf (err e) = err e
leaf panic = panic

-- the error behind the switch
unfoldable pub unknown : String → String → Outcome SubsetEvent
unknown route type =
    err (wrap (append "problem with " (append route (append " - " type))) unknown_message_type)

module _ (ext : External) where
  -- the case "exec_delegated", with the events of the messages inside
  unfoldable pub with_events : MsgBody → Outcome SubsetEvents → Outcome SubsetEvent
  with_events body inside = do
    found ← msgauth_exec_authorized_to_sub ext body
    events ← inside
    ok (subset found.0 events)

  -- One function for each case of the outer switch; a type that it does not list falls out of both.
  unfoldable pub bank_event : String → MsgBody → LogFormat → Outcome SubsetEvent
  bank_event type body lf =
      if str_eq type "multisend"
      then leaf (bank_multisend_to_sub ext body lf)
      else if str_eq type "send"
      then leaf (bank_send_to_sub ext body lf)
      else unknown "bank" type

  unfoldable pub crisis_event : String → MsgBody → Outcome SubsetEvent
  crisis_event type body =
      if str_eq type "verify_invariant"
      then leaf (crisis_verify_invariant_to_sub ext body)
      else unknown "crisis" type

  unfoldable pub distribution_event : String → MsgBody → LogFormat → Outcome SubsetEvent
  distribution_event type body lf =
      if str_eq type "withdraw_validator_commission"
      then leaf (distribution_withdraw_validator_commission_to_sub ext body lf)
      else if str_eq type "set_withdraw_address"
      then leaf (distribution_set_withdraw_address_to_sub ext body)
      else if str_eq type "withdraw_delegator_reward"
      then leaf (distribution_withdraw_delegator_reward_to_sub ext body lf)
      else if str_eq type "fund_community_pool"
      then leaf (distribution_fund_community_pool_to_sub ext body)
      else unknown "distribution" type

  unfoldable pub evidence_event : String → MsgBody → Outcome SubsetEvent
  evidence_event type body =
      if str_eq type "submit_evidence"
      then leaf (evidence_submit_evidence_to_sub ext body)
      else unknown "evidence" type

  unfoldable pub gov_event : String → MsgBody → LogFormat → Outcome SubsetEvent
  gov_event type body lf =
      if str_eq type "deposit"
      then leaf (gov_deposit_to_sub ext body lf)
      else if str_eq type "vote"
      then leaf (gov_vote_to_sub ext body)
      else if str_eq type "submit_proposal"
      then leaf (gov_submit_proposal_to_sub ext body lf)
      else unknown "gov" type

  unfoldable pub market_event : String → MsgBody → LogFormat → Outcome SubsetEvent
  market_event type body lf =
      if str_eq type "swap"
      then leaf (market_swap_to_sub ext body lf)
      else if str_eq type "swapsend"
      then leaf (market_swap_send_to_sub ext body lf)
      else unknown "market" type

  unfoldable pub msgauth_event : String → MsgBody → Outcome SubsetEvents → Outcome SubsetEvent
  unfolding with_events
  msgauth_event type body inside =
      if str_eq type "grant_authorization"
      then leaf (msgauth_grant_authorization_to_sub ext body)
      else if str_eq type "revoke_authorization"
      then leaf (msgauth_revoke_authorization_to_sub ext body)
      else if str_eq type "exec_delegated"
      then with_events body inside
      else unknown "msgauth" type

  unfoldable pub oracle_event : String → MsgBody → Outcome SubsetEvent
  oracle_event type body =
      if str_eq type "exchangeratevote"
      then leaf (oracle_exchange_rate_vote_to_sub ext body)
      else if str_eq type "exchangerateprevote"
      then leaf (oracle_exchange_rate_prevote_to_sub ext body)
      else if str_eq type "delegatefeeder"
      then leaf (oracle_delegate_feed_consent ext body)
      else if str_eq type "aggregateexchangerateprevote"
      then leaf (oracle_aggregate_exchange_rate_prevote_to_sub ext body)
      else if str_eq type "aggregateexchangeratevote"
      then leaf (oracle_aggregate_exchange_rate_vote_to_sub ext body)
      else unknown "oracle" type

  unfoldable pub slashing_event : String → MsgBody → Outcome SubsetEvent
  slashing_event type body =
      if str_eq type "unjail"
      then leaf (slashing_unjail_to_sub ext body)
      else unknown "slashing" type

  unfoldable pub staking_event : String → MsgBody → LogFormat → Outcome SubsetEvent
  staking_event type body lf =
      if str_eq type "begin_unbonding"
      then leaf (staking_undelegate_to_sub ext body lf)
      else if str_eq type "edit_validator"
      then leaf (staking_edit_validator_to_sub ext body)
      else if str_eq type "create_validator"
      then leaf (staking_create_validator_to_sub ext body)
      else if str_eq type "delegate"
      then leaf (staking_delegate_to_sub ext body lf)
      else if str_eq type "begin_redelegate"
      then leaf (staking_begin_redelegate_to_sub ext body lf)
      else unknown "staking" type

  unfoldable pub wasm_event : String → MsgBody → Outcome SubsetEvent
  wasm_event type body =
      if str_eq type "execute_contract"
      then leaf (wasm_execute_contract_to_sub ext body)
      else if str_eq type "store_code"
      then leaf (wasm_store_code_to_sub ext body)
      else if str_eq type "update_contract_owner"
      then leaf (wasm_msg_update_contract_owner_to_sub ext body)
      else if str_eq type "instantiate_contract"
      then leaf (wasm_msg_instantiate_contract_to_sub ext body)
      else if str_eq type "migrate_contract"
      then leaf (wasm_msg_migrate_contract_to_sub ext body)
      else unknown "wasm" type

  -- the outer switch
  unfoldable pub dispatch :
      String → String → MsgBody → LogFormat → Outcome SubsetEvents → Outcome SubsetEvent
  dispatch route type body lf inside =
      if str_eq route "bank"
      then bank_event type body lf
      else if str_eq route "crisis"
      then crisis_event type body
      else if str_eq route "distribution"
      then distribution_event type body lf
      else if str_eq route "evidence"
      then evidence_event type body
      else if str_eq route "gov"
      then gov_event type body lf
      else if str_eq route "market"
      then market_event type body lf
      else if str_eq route "msgauth"
      then msgauth_event type body inside
      else if str_eq route "oracle"
      then oracle_event type body
      else if str_eq route "slashing"
      then slashing_event type body
      else if str_eq route "staking"
      then staking_event type body lf
      else if str_eq route "wasm"
      then wasm_event type body
      else unknown route type

  -- se.Sub = append(se.Sub, subEv); where getSubEvent fails, the loop is left with what it has, and
  -- `err`, which is nil, is returned instead of `subErr`
  unfoldable pub after_event : Outcome SubsetEvent → Outcome SubsetEvents → Outcome SubsetEvents
  after_event (ok sub_ev) (ok rest) = ok (Structs.cons sub_ev rest)
  after_event (ok sub_ev) (err e) = err e
  after_event (ok sub_ev) panic = panic
  after_event (err e) rest = ok Structs.nil
  after_event panic rest = panic

-- The recursion goes down the messages inside a message, which only `exec_delegated` looks at.
unfoldable mutual
  pub get_sub_event : External → Msg → LogFormat → Outcome SubsetEvent
  get_sub_event ext (msg route type body) lf =
      dispatch ext route type body lf (events_inside ext body lf)

  pub events_inside : External → MsgBody → LogFormat → Outcome SubsetEvents
  events_inside ext (exec_authorized grantee msgs) lf = sub_events ext msgs lf
  events_inside ext _ lf = ok Structs.nil

  pub sub_events : External → Msgs → LogFormat → Outcome SubsetEvents
  sub_events ext nil lf = ok Structs.nil
  sub_events ext (cons m ms) lf = after_event ext (get_sub_event ext m lf) (sub_events ext ms lf)
