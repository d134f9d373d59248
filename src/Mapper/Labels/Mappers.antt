-- ===== src/Mapper/Labels/Mappers.antt =====
-- One lemma for each mapper: its label.
use terra_worker.Prelude.{refl, String, Bool, true, false}
use terra_worker.Api.Types.{LogFormat}
use terra_worker.External.{External}
use terra_worker.Mapper.Messages.{MsgBody, MsgSwap}
use terra_worker.Mapper.Bank.Sends.{bank_multisend_to_sub, bank_send_to_sub}
use terra_worker.Mapper.Staking.{
  staking_undelegate_to_sub, staking_delegate_to_sub, staking_begin_redelegate_to_sub,
  staking_create_validator_to_sub, staking_edit_validator_to_sub,
}
use terra_worker.Mapper.Distribution.{
  distribution_withdraw_validator_commission_to_sub, distribution_set_withdraw_address_to_sub,
  distribution_withdraw_delegator_reward_to_sub, distribution_fund_community_pool_to_sub,
}
use terra_worker.Mapper.Gov.{gov_deposit_to_sub, gov_vote_to_sub, gov_submit_proposal_to_sub}
use terra_worker.Mapper.Market.{market_swap_to_sub, market_swap_send_to_sub}
use terra_worker.Mapper.Msgauth.{
  msgauth_grant_authorization_to_sub, msgauth_revoke_authorization_to_sub,
}
use terra_worker.Mapper.Oracle.{
  oracle_exchange_rate_vote_to_sub, oracle_exchange_rate_prevote_to_sub,
  oracle_delegate_feed_consent, oracle_aggregate_exchange_rate_prevote_to_sub,
  oracle_aggregate_exchange_rate_vote_to_sub,
}
use terra_worker.Mapper.Wasm.{
  wasm_execute_contract_to_sub, wasm_store_code_to_sub, wasm_msg_update_contract_owner_to_sub,
  wasm_msg_instantiate_contract_to_sub, wasm_msg_migrate_contract_to_sub,
}
use terra_worker.Mapper.Single.{
  crisis_verify_invariant_to_sub, evidence_submit_evidence_to_sub, slashing_unjail_to_sub,
}
use terra_worker.Structs.{SubsetFields}
use terra_worker.Mapper.Market.{traded}
use terra_worker.Mapper.Labels.{
  HasLabel, Labelled, Labelled-bind, produce_transfers-Labelled, label_rules,
}

traded-HasLabel :
    {type module_name : String} (ext : External) (empty : Bool) (swap : MsgSwap) (se : SubsetFields)
    → HasLabel type module_name se
    → HasLabel type module_name (traded ext empty swap se)
unfolding traded
traded-HasLabel ext true swap se h = h
traded-HasLabel ext false swap se h = h

module _ (ext : External) (body : MsgBody) where
  pub bank_multisend_to_sub-Labelled :
      (lf : LogFormat) → Labelled "multisend" "bank" (bank_multisend_to_sub ext body lf)
  unfolding bank_multisend_to_sub
  bank_multisend_to_sub-Labelled lf = search label_rules depth 8

  pub bank_send_to_sub-Labelled :
      (lf : LogFormat) → Labelled "send" "bank" (bank_send_to_sub ext body lf)
  unfolding bank_send_to_sub
  bank_send_to_sub-Labelled lf = search label_rules depth 8

  pub staking_undelegate_to_sub-Labelled :
      (lf : LogFormat)
      → Labelled "begin_unbonding" "staking" (staking_undelegate_to_sub ext body lf)
  unfolding staking_undelegate_to_sub
  staking_undelegate_to_sub-Labelled lf = search label_rules depth 8

  pub staking_delegate_to_sub-Labelled :
      (lf : LogFormat) → Labelled "delegate" "staking" (staking_delegate_to_sub ext body lf)
  unfolding staking_delegate_to_sub
  staking_delegate_to_sub-Labelled lf = search label_rules depth 8

  pub staking_begin_redelegate_to_sub-Labelled :
      (lf : LogFormat)
      → Labelled "begin_redelegate" "staking" (staking_begin_redelegate_to_sub ext body lf)
  unfolding staking_begin_redelegate_to_sub
  staking_begin_redelegate_to_sub-Labelled lf = search label_rules depth 8

  pub staking_create_validator_to_sub-Labelled :
      Labelled "create_validator" "distribution" (staking_create_validator_to_sub ext body)
  unfolding staking_create_validator_to_sub
  staking_create_validator_to_sub-Labelled = search label_rules depth 8

  pub staking_edit_validator_to_sub-Labelled :
      Labelled "edit_validator" "distribution" (staking_edit_validator_to_sub ext body)
  unfolding staking_edit_validator_to_sub
  staking_edit_validator_to_sub-Labelled = search label_rules depth 8

  pub distribution_withdraw_validator_commission_to_sub-Labelled :
      (lf : LogFormat)
      → Labelled "withdraw_validator_commission" "distribution"
          (distribution_withdraw_validator_commission_to_sub ext body lf)
  unfolding distribution_withdraw_validator_commission_to_sub
  distribution_withdraw_validator_commission_to_sub-Labelled lf = search label_rules depth 8

  pub distribution_set_withdraw_address_to_sub-Labelled :
      Labelled "set_withdraw_address" "distribution"
        (distribution_set_withdraw_address_to_sub ext body)
  unfolding distribution_set_withdraw_address_to_sub
  distribution_set_withdraw_address_to_sub-Labelled = search label_rules depth 8

  pub distribution_withdraw_delegator_reward_to_sub-Labelled :
      (lf : LogFormat)
      → Labelled "withdraw_delegator_reward" "distribution"
          (distribution_withdraw_delegator_reward_to_sub ext body lf)
  unfolding distribution_withdraw_delegator_reward_to_sub
  distribution_withdraw_delegator_reward_to_sub-Labelled lf = search label_rules depth 8

  pub distribution_fund_community_pool_to_sub-Labelled :
      Labelled "fund_community_pool" "distribution"
        (distribution_fund_community_pool_to_sub ext body)
  unfolding distribution_fund_community_pool_to_sub
  distribution_fund_community_pool_to_sub-Labelled = search label_rules depth 8

  pub gov_deposit_to_sub-Labelled :
      (lf : LogFormat) → Labelled "deposit" "gov" (gov_deposit_to_sub ext body lf)
  unfolding gov_deposit_to_sub
  gov_deposit_to_sub-Labelled lf = search label_rules depth 8

  pub gov_vote_to_sub-Labelled : Labelled "vote" "gov" (gov_vote_to_sub ext body)
  unfolding gov_vote_to_sub
  gov_vote_to_sub-Labelled = search label_rules depth 8

  pub gov_submit_proposal_to_sub-Labelled :
      (lf : LogFormat) → Labelled "submit_proposal" "gov" (gov_submit_proposal_to_sub ext body lf)
  unfolding gov_submit_proposal_to_sub
  gov_submit_proposal_to_sub-Labelled lf = search label_rules depth 8

  pub market_swap_to_sub-Labelled :
      (lf : LogFormat) → Labelled "swap" "market" (market_swap_to_sub ext body lf)
  unfolding market_swap_to_sub
  market_swap_to_sub-Labelled lf = Labelled-bind _ _ λ swap.
      produce_transfers-Labelled ext _ "send" "" lf
        (traded-HasLabel ext (ext.acc_address_empty swap.trader) swap _ (refl, refl))

  pub market_swap_send_to_sub-Labelled :
      (lf : LogFormat) → Labelled "swapsend" "market" (market_swap_send_to_sub ext body lf)
  unfolding market_swap_send_to_sub
  market_swap_send_to_sub-Labelled lf = search label_rules depth 8

  pub msgauth_grant_authorization_to_sub-Labelled :
      Labelled "grant_authorization" "msgAuth" (msgauth_grant_authorization_to_sub ext body)
  unfolding msgauth_grant_authorization_to_sub
  msgauth_grant_authorization_to_sub-Labelled = search label_rules depth 8

  pub msgauth_revoke_authorization_to_sub-Labelled :
      Labelled "revoke_authorization" "msgAuth" (msgauth_revoke_authorization_to_sub ext body)
  unfolding msgauth_revoke_authorization_to_sub
  msgauth_revoke_authorization_to_sub-Labelled = search label_rules depth 8

  pub oracle_exchange_rate_vote_to_sub-Labelled :
      Labelled "exchangeratevote" "oracle" (oracle_exchange_rate_vote_to_sub ext body)
  unfolding oracle_exchange_rate_vote_to_sub
  oracle_exchange_rate_vote_to_sub-Labelled = search label_rules depth 8

  pub oracle_exchange_rate_prevote_to_sub-Labelled :
      Labelled "exchangerateprevote" "oracle" (oracle_exchange_rate_prevote_to_sub ext body)
  unfolding oracle_exchange_rate_prevote_to_sub
  oracle_exchange_rate_prevote_to_sub-Labelled = search label_rules depth 8

  pub oracle_delegate_feed_consent-Labelled :
      Labelled "delegatefeeder" "oracle" (oracle_delegate_feed_consent ext body)
  unfolding oracle_delegate_feed_consent
  oracle_delegate_feed_consent-Labelled = search label_rules depth 8

  pub oracle_aggregate_exchange_rate_prevote_to_sub-Labelled :
      Labelled "aggregateexchangerateprevote" "oracle"
        (oracle_aggregate_exchange_rate_prevote_to_sub ext body)
  unfolding oracle_aggregate_exchange_rate_prevote_to_sub
  oracle_aggregate_exchange_rate_prevote_to_sub-Labelled = search label_rules depth 8

  pub oracle_aggregate_exchange_rate_vote_to_sub-Labelled :
      Labelled "aggregateexchangerateprevote" "oracle"
        (oracle_aggregate_exchange_rate_vote_to_sub ext body)
  unfolding oracle_aggregate_exchange_rate_vote_to_sub
  oracle_aggregate_exchange_rate_vote_to_sub-Labelled = search label_rules depth 8

  pub wasm_execute_contract_to_sub-Labelled :
      Labelled "execute_contract" "wasm" (wasm_execute_contract_to_sub ext body)
  unfolding wasm_execute_contract_to_sub
  wasm_execute_contract_to_sub-Labelled = search label_rules depth 8

  pub wasm_store_code_to_sub-Labelled :
      Labelled "store_code" "wasm" (wasm_store_code_to_sub ext body)
  unfolding wasm_store_code_to_sub
  wasm_store_code_to_sub-Labelled = search label_rules depth 8

  pub wasm_msg_update_contract_owner_to_sub-Labelled :
      Labelled "update_contract_owner" "wasm" (wasm_msg_update_contract_owner_to_sub ext body)
  unfolding wasm_msg_update_contract_owner_to_sub
  wasm_msg_update_contract_owner_to_sub-Labelled = search label_rules depth 8

  pub wasm_msg_instantiate_contract_to_sub-Labelled :
      Labelled "instantiate_contract" "wasm" (wasm_msg_instantiate_contract_to_sub ext body)
  unfolding wasm_msg_instantiate_contract_to_sub
  wasm_msg_instantiate_contract_to_sub-Labelled = search label_rules depth 8

  pub wasm_msg_migrate_contract_to_sub-Labelled :
      Labelled "migrate_contract" "wasm" (wasm_msg_migrate_contract_to_sub ext body)
  unfolding wasm_msg_migrate_contract_to_sub
  wasm_msg_migrate_contract_to_sub-Labelled = search label_rules depth 8

  pub crisis_verify_invariant_to_sub-Labelled :
      Labelled "verify_invariant" "crisis" (crisis_verify_invariant_to_sub ext body)
  unfolding crisis_verify_invariant_to_sub
  crisis_verify_invariant_to_sub-Labelled = search label_rules depth 8

  pub evidence_submit_evidence_to_sub-Labelled :
      Labelled "submit_evidence" "evidence" (evidence_submit_evidence_to_sub ext body)
  unfolding evidence_submit_evidence_to_sub
  evidence_submit_evidence_to_sub-Labelled = search label_rules depth 8

  pub slashing_unjail_to_sub-Labelled :
      Labelled "unjail" "slashing" (slashing_unjail_to_sub ext body)
  unfolding slashing_unjail_to_sub
  slashing_unjail_to_sub-Labelled = search label_rules depth 8
