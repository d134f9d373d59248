-- ===== src/Mapper/Messages/Assertions.antt =====
-- Type assertions, `m, ok := msg.(T)`, one for each type of message.
use terra_worker.Prelude.{Option, none, some}
use terra_worker.Mapper.Messages.{
  MsgBody, multi_send, MsgMultiSend, send, MsgSend, verify_invariant, MsgVerifyInvariant,
  withdraw_validator_commission, MsgWithdrawValidatorCommission, set_withdraw_address,
  MsgSetWithdrawAddress, withdraw_delegator_reward, MsgWithdrawDelegatorReward, fund_community_pool,
  MsgFundCommunityPool, submit_evidence, MsgSubmitEvidence, deposit, MsgDeposit, vote, MsgVote,
  submit_proposal, MsgSubmitProposal, swap, MsgSwap, swap_send, MsgSwapSend, grant_authorization,
  MsgGrantAuthorization, revoke_authorization, MsgRevokeAuthorization, exchange_rate_vote,
  MsgExchangeRateVote, exchange_rate_prevote, MsgExchangeRatePrevote, delegate_feed_consent,
  MsgDelegateFeedConsent, aggregate_exchange_rate_prevote, MsgAggregateExchangeRatePrevote,
  aggregate_exchange_rate_vote, MsgAggregateExchangeRateVote, unjail, MsgUnjail, undelegate,
  MsgUndelegate, delegate, MsgDelegate, begin_redelegate, MsgBeginRedelegate, create_validator,
  MsgCreateValidator, edit_validator, MsgEditValidator, execute_contract, MsgExecuteContract,
  store_code, MsgStoreCode, update_contract_owner, MsgUpdateContractOwner, instantiate_contract,
  MsgInstantiateContract, migrate_contract, MsgMigrateContract, exec_authorized, Address, Msgs,
}

unfoldable pub as_multi_send : MsgBody → Option MsgMultiSend
as_multi_send (multi_send m) = some m
as_multi_send _ = none

unfoldable pub as_send : MsgBody → Option MsgSend
as_send (send m) = some m
as_send _ = none

unfoldable pub as_verify_invariant : MsgBody → Option MsgVerifyInvariant
as_verify_invariant (verify_invariant m) = some m
as_verify_invariant _ = none

unfoldable pub as_withdraw_validator_commission : MsgBody → Option MsgWithdrawValidatorCommission
as_withdraw_validator_commission (withdraw_validator_commission m) = some m
as_withdraw_validator_commission _ = none

unfoldable pub as_set_withdraw_address : MsgBody → Option MsgSetWithdrawAddress
as_set_withdraw_address (set_withdraw_address m) = some m
as_set_withdraw_address _ = none

unfoldable pub as_withdraw_delegator_reward : MsgBody → Option MsgWithdrawDelegatorReward
as_withdraw_delegator_reward (withdraw_delegator_reward m) = some m
as_withdraw_delegator_reward _ = none

unfoldable pub as_fund_community_pool : MsgBody → Option MsgFundCommunityPool
as_fund_community_pool (fund_community_pool m) = some m
as_fund_community_pool _ = none

unfoldable pub as_submit_evidence : MsgBody → Option MsgSubmitEvidence
as_submit_evidence (submit_evidence m) = some m
as_submit_evidence _ = none

unfoldable pub as_deposit : MsgBody → Option MsgDeposit
as_deposit (deposit m) = some m
as_deposit _ = none

unfoldable pub as_vote : MsgBody → Option MsgVote
as_vote (vote m) = some m
as_vote _ = none

unfoldable pub as_submit_proposal : MsgBody → Option MsgSubmitProposal
as_submit_proposal (submit_proposal m) = some m
as_submit_proposal _ = none

unfoldable pub as_swap : MsgBody → Option MsgSwap
as_swap (swap m) = some m
as_swap _ = none

unfoldable pub as_swap_send : MsgBody → Option MsgSwapSend
as_swap_send (swap_send m) = some m
as_swap_send _ = none

unfoldable pub as_grant_authorization : MsgBody → Option MsgGrantAuthorization
as_grant_authorization (grant_authorization m) = some m
as_grant_authorization _ = none

unfoldable pub as_revoke_authorization : MsgBody → Option MsgRevokeAuthorization
as_revoke_authorization (revoke_authorization m) = some m
as_revoke_authorization _ = none

unfoldable pub as_exchange_rate_vote : MsgBody → Option MsgExchangeRateVote
as_exchange_rate_vote (exchange_rate_vote m) = some m
as_exchange_rate_vote _ = none

unfoldable pub as_exchange_rate_prevote : MsgBody → Option MsgExchangeRatePrevote
as_exchange_rate_prevote (exchange_rate_prevote m) = some m
as_exchange_rate_prevote _ = none

unfoldable pub as_delegate_feed_consent : MsgBody → Option MsgDelegateFeedConsent
as_delegate_feed_consent (delegate_feed_consent m) = some m
as_delegate_feed_consent _ = none

unfoldable pub as_aggregate_exchange_rate_prevote : MsgBody → Option MsgAggregateExchangeRatePrevote
as_aggregate_exchange_rate_prevote (aggregate_exchange_rate_prevote m) = some m
as_aggregate_exchange_rate_prevote _ = none

unfoldable pub as_aggregate_exchange_rate_vote : MsgBody → Option MsgAggregateExchangeRateVote
as_aggregate_exchange_rate_vote (aggregate_exchange_rate_vote m) = some m
as_aggregate_exchange_rate_vote _ = none

unfoldable pub as_unjail : MsgBody → Option MsgUnjail
as_unjail (unjail m) = some m
as_unjail _ = none

unfoldable pub as_undelegate : MsgBody → Option MsgUndelegate
as_undelegate (undelegate m) = some m
as_undelegate _ = none

unfoldable pub as_delegate : MsgBody → Option MsgDelegate
as_delegate (delegate m) = some m
as_delegate _ = none

unfoldable pub as_begin_redelegate : MsgBody → Option MsgBeginRedelegate
as_begin_redelegate (begin_redelegate m) = some m
as_begin_redelegate _ = none

unfoldable pub as_create_validator : MsgBody → Option MsgCreateValidator
as_create_validator (create_validator m) = some m
as_create_validator _ = none

unfoldable pub as_edit_validator : MsgBody → Option MsgEditValidator
as_edit_validator (edit_validator m) = some m
as_edit_validator _ = none

unfoldable pub as_execute_contract : MsgBody → Option MsgExecuteContract
as_execute_contract (execute_contract m) = some m
as_execute_contract _ = none

unfoldable pub as_store_code : MsgBody → Option MsgStoreCode
as_store_code (store_code m) = some m
as_store_code _ = none

unfoldable pub as_update_contract_owner : MsgBody → Option MsgUpdateContractOwner
as_update_contract_owner (update_contract_owner m) = some m
as_update_contract_owner _ = none

unfoldable pub as_instantiate_contract : MsgBody → Option MsgInstantiateContract
as_instantiate_contract (instantiate_contract m) = some m
as_instantiate_contract _ = none

unfoldable pub as_migrate_contract : MsgBody → Option MsgMigrateContract
as_migrate_contract (migrate_contract m) = some m
as_migrate_contract _ = none

unfoldable pub as_exec_authorized : MsgBody → Option (Address × Msgs)
as_exec_authorized (exec_authorized grantee msgs) = some (grantee, msgs)
as_exec_authorized _ = none
