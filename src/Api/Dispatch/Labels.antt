-- ===== src/Api/Dispatch/Labels.antt =====
-- The label of an event that `getSubEvent` returns: its type and its module.
use mathlib.Core.Path.{subst}
use terra_worker.Prelude.{String, ◌≡◌, refl, [], ◌∷◌}
use terra_worker.Go.Outcome.{Outcome, ok, ok_of_bind, ok-injective}
use terra_worker.Structs.{SubsetFields, SubsetEvents, subset}
use terra_worker.Api.Types.{LogFormat}
use terra_worker.External.{External}
use terra_worker.Mapper.Messages.{Msgs, MsgBody, msg}
use terra_worker.Mapper.Labels.{HasLabel}
use terra_worker.Mapper.Labels.Mappers.{
  bank_multisend_to_sub-Labelled, bank_send_to_sub-Labelled,
  crisis_verify_invariant_to_sub-Labelled,
  distribution_withdraw_validator_commission_to_sub-Labelled,
  distribution_set_withdraw_address_to_sub-Labelled,
  distribution_withdraw_delegator_reward_to_sub-Labelled,
  distribution_fund_community_pool_to_sub-Labelled, evidence_submit_evidence_to_sub-Labelled,
  gov_deposit_to_sub-Labelled, gov_vote_to_sub-Labelled, gov_submit_proposal_to_sub-Labelled,
  market_swap_to_sub-Labelled, market_swap_send_to_sub-Labelled,
  msgauth_grant_authorization_to_sub-Labelled, msgauth_revoke_authorization_to_sub-Labelled,
  oracle_exchange_rate_vote_to_sub-Labelled, oracle_exchange_rate_prevote_to_sub-Labelled,
  oracle_delegate_feed_consent-Labelled, oracle_aggregate_exchange_rate_prevote_to_sub-Labelled,
  oracle_aggregate_exchange_rate_vote_to_sub-Labelled, slashing_unjail_to_sub-Labelled,
  staking_undelegate_to_sub-Labelled, staking_edit_validator_to_sub-Labelled,
  staking_create_validator_to_sub-Labelled, staking_delegate_to_sub-Labelled,
  staking_begin_redelegate_to_sub-Labelled, wasm_execute_contract_to_sub-Labelled,
  wasm_store_code_to_sub-Labelled, wasm_msg_update_contract_owner_to_sub-Labelled,
  wasm_msg_instantiate_contract_to_sub-Labelled, wasm_msg_migrate_contract_to_sub-Labelled,
}
use terra_worker.Mapper.Msgauth.{msgauth_exec_authorized_to_sub}
use terra_worker.Mapper.Messages.Assertions.{as_exec_authorized}
use terra_worker.Mapper.Encoding.{asserted}
use terra_worker.Api.Dispatch.Cases.{
  label_of, module_of, EventLabelled, fields-injective, leaf-EventLabelled, unknown-EventLabelled,
  type_case, route_case,
}
use terra_worker.Api.Dispatch.{
  with_events, bank_event, crisis_event, distribution_event, evidence_event, gov_event,
  market_event, msgauth_event, oracle_event, slashing_event, staking_event, wasm_event, dispatch,
  get_sub_event, events_inside,
}

module _ (ext : External) (type : String) (body : MsgBody) where
  exec_authorized-HasLabel :
      (found : SubsetFields × Msgs)
      → msgauth_exec_authorized_to_sub ext body ≡ ok found
      → HasLabel "exec_delegated" "msgAuth" found.0
  unfolding msgauth_exec_authorized_to_sub
  exec_authorized-HasLabel found h =
      let (grantee, _, e) = ok_of_bind (asserted (as_exec_authorized body) _) _ h in
      subst (λ (f : SubsetFields × Msgs). HasLabel "exec_delegated" "msgAuth" f.0)
        (ok-injective _ found e) (refl, refl)

  exec-EventLabelled :
      (inside : Outcome SubsetEvents)
      → EventLabelled "msgauth" "exec_delegated" (with_events ext body inside)
  unfolding with_events label_of module_of
  exec-EventLabelled inside = record {
    holds = λ se subs h.
        let (found, e, h') = ok_of_bind (msgauth_exec_authorized_to_sub ext body) _ h in
        let (events, _, h'') = ok_of_bind inside _ h' in
        subst (HasLabel "exec_delegated" "msgAuth") (fields-injective found.0 se events subs h'')
          (exec_authorized-HasLabel found e);
  }

  bank_event-EventLabelled :
      (lf : LogFormat) → EventLabelled "bank" type (bank_event ext type body lf)
  unfolding bank_event label_of module_of
  bank_event-EventLabelled lf =
      type_case type "multisend"
        (leaf-EventLabelled _ refl refl (bank_multisend_to_sub-Labelled ext body lf))
        (type_case type "send"
          (leaf-EventLabelled _ refl refl (bank_send_to_sub-Labelled ext body lf))
          (unknown-EventLabelled "bank" type))

  crisis_event-EventLabelled : EventLabelled "crisis" type (crisis_event ext type body)
  unfolding crisis_event label_of module_of
  crisis_event-EventLabelled =
      type_case type "verify_invariant"
        (leaf-EventLabelled _ refl refl (crisis_verify_invariant_to_sub-Labelled ext body))
        (unknown-EventLabelled "crisis" type)

  distribution_event-EventLabelled :
      (lf : LogFormat) → EventLabelled "distribution" type (distribution_event ext type body lf)
  unfolding distribution_event label_of module_of
  distribution_event-EventLabelled lf =
      type_case type "withdraw_validator_commission"
        (leaf-EventLabelled _ refl refl
          (distribution_withdraw_validator_commission_to_sub-Labelled ext body lf))
        (type_case type "set_withdraw_address"
          (leaf-EventLabelled _ refl refl
            (distribution_set_withdraw_address_to_sub-Labelled ext body))
          (type_case type "withdraw_delegator_reward"
            (leaf-EventLabelled _ refl refl
              (distribution_withdraw_delegator_reward_to_sub-Labelled ext body lf))
            (type_case type "fund_community_pool"
              (leaf-EventLabelled _ refl refl
                (distribution_fund_community_pool_to_sub-Labelled ext body))
              (unknown-EventLabelled "distribution" type))))

  evidence_event-EventLabelled : EventLabelled "evidence" type (evidence_event ext type body)
  unfolding evidence_event label_of module_of
  evidence_event-EventLabelled =
      type_case type "submit_evidence"
        (leaf-EventLabelled _ refl refl (evidence_submit_evidence_to_sub-Labelled ext body))
        (unknown-EventLabelled "evidence" type)

  gov_event-EventLabelled : (lf : LogFormat) → EventLabelled "gov" type (gov_event ext type body lf)
  unfolding gov_event label_of module_of
  gov_event-EventLabelled lf =
      type_case type "deposit"
        (leaf-EventLabelled _ refl refl (gov_deposit_to_sub-Labelled ext body lf))
        (type_case type "vote" (leaf-EventLabelled _ refl refl (gov_vote_to_sub-Labelled ext body))
          (type_case type "submit_proposal"
            (leaf-EventLabelled _ refl refl (gov_submit_proposal_to_sub-Labelled ext body lf))
            (unknown-EventLabelled "gov" type)))

  market_event-EventLabelled :
      (lf : LogFormat) → EventLabelled "market" type (market_event ext type body lf)
  unfolding market_event label_of module_of
  market_event-EventLabelled lf =
      type_case type "swap"
        (leaf-EventLabelled _ refl refl (market_swap_to_sub-Labelled ext body lf))
        (type_case type "swapsend"
          (leaf-EventLabelled _ refl refl (market_swap_send_to_sub-Labelled ext body lf))
          (unknown-EventLabelled "market" type))

  msgauth_event-EventLabelled :
      (inside : Outcome SubsetEvents)
      → EventLabelled "msgauth" type (msgauth_event ext type body inside)
  unfolding msgauth_event label_of module_of
  msgauth_event-EventLabelled inside =
      type_case type "grant_authorization"
        (leaf-EventLabelled _ refl refl (msgauth_grant_authorization_to_sub-Labelled ext body))
        (type_case type "revoke_authorization"
          (leaf-EventLabelled _ refl refl (msgauth_revoke_authorization_to_sub-Labelled ext body))
          (type_case type "exec_delegated" (exec-EventLabelled inside)
            (unknown-EventLabelled "msgauth" type)))

  oracle_event-EventLabelled : EventLabelled "oracle" type (oracle_event ext type body)
  unfolding oracle_event label_of module_of
  oracle_event-EventLabelled =
      type_case type "exchangeratevote"
        (leaf-EventLabelled _ refl refl (oracle_exchange_rate_vote_to_sub-Labelled ext body))
        (type_case type "exchangerateprevote"
          (leaf-EventLabelled _ refl refl (oracle_exchange_rate_prevote_to_sub-Labelled ext body))
          (type_case type "delegatefeeder"
            (leaf-EventLabelled _ refl refl (oracle_delegate_feed_consent-Labelled ext body))
            (type_case type "aggregateexchangerateprevote"
              (leaf-EventLabelled _ refl refl
                (oracle_aggregate_exchange_rate_prevote_to_sub-Labelled ext body))
              (type_case type "aggregateexchangeratevote"
                (leaf-EventLabelled _ refl refl
                  (oracle_aggregate_exchange_rate_vote_to_sub-Labelled ext body))
                (unknown-EventLabelled "oracle" type)))))

  slashing_event-EventLabelled : EventLabelled "slashing" type (slashing_event ext type body)
  unfolding slashing_event label_of module_of
  slashing_event-EventLabelled =
      type_case type "unjail"
        (leaf-EventLabelled _ refl refl (slashing_unjail_to_sub-Labelled ext body))
        (unknown-EventLabelled "slashing" type)

  staking_event-EventLabelled :
      (lf : LogFormat) → EventLabelled "staking" type (staking_event ext type body lf)
  unfolding staking_event label_of module_of
  staking_event-EventLabelled lf =
      type_case type "begin_unbonding"
        (leaf-EventLabelled _ refl refl (staking_undelegate_to_sub-Labelled ext body lf))
        (type_case type "edit_validator"
          (leaf-EventLabelled _ refl refl (staking_edit_validator_to_sub-Labelled ext body))
          (type_case type "create_validator"
            (leaf-EventLabelled _ refl refl (staking_create_validator_to_sub-Labelled ext body))
            (type_case type "delegate"
              (leaf-EventLabelled _ refl refl (staking_delegate_to_sub-Labelled ext body lf))
              (type_case type "begin_redelegate"
                (leaf-EventLabelled _ refl refl
                  (staking_begin_redelegate_to_sub-Labelled ext body lf))
                (unknown-EventLabelled "staking" type)))))

  wasm_event-EventLabelled : EventLabelled "wasm" type (wasm_event ext type body)
  unfolding wasm_event label_of module_of
  wasm_event-EventLabelled =
      type_case type "execute_contract"
        (leaf-EventLabelled _ refl refl (wasm_execute_contract_to_sub-Labelled ext body))
        (type_case type "store_code"
          (leaf-EventLabelled _ refl refl (wasm_store_code_to_sub-Labelled ext body))
          (type_case type "update_contract_owner"
            (leaf-EventLabelled _ refl refl
              (wasm_msg_update_contract_owner_to_sub-Labelled ext body))
            (type_case type "instantiate_contract"
              (leaf-EventLabelled _ refl refl
                (wasm_msg_instantiate_contract_to_sub-Labelled ext body))
              (type_case type "migrate_contract"
                (leaf-EventLabelled _ refl refl
                  (wasm_msg_migrate_contract_to_sub-Labelled ext body))
                (unknown-EventLabelled "wasm" type)))))

  dispatch-EventLabelled :
      (route : String) (lf : LogFormat) (inside : Outcome SubsetEvents)
      → EventLabelled route type (dispatch ext route type body lf inside)
  unfolding dispatch
  dispatch-EventLabelled route lf inside = route_case route "bank" (bank_event-EventLabelled lf) (
      route_case route "crisis" (crisis_event-EventLabelled) (
        route_case route "distribution" (distribution_event-EventLabelled lf) (
          route_case route "evidence" (evidence_event-EventLabelled) (
            route_case route "gov" (gov_event-EventLabelled lf) (
              route_case route "market" (market_event-EventLabelled lf) (
                route_case route "msgauth" (msgauth_event-EventLabelled inside) (
                  route_case route "oracle" (oracle_event-EventLabelled) (
                    route_case route "slashing" (slashing_event-EventLabelled) (
                      route_case route "staking" (staking_event-EventLabelled lf) (
                        route_case route "wasm" (wasm_event-EventLabelled)
                          (unknown-EventLabelled route type)))))))))))

-- Every event that getSubEvent returns has one type, which is the type of the message, but
-- "aggregateexchangerateprevote" for "aggregateexchangeratevote". Its module is the route of the
-- message, but "msgAuth" for "msgauth", and "distribution" for staking's "edit_validator" and
-- "create_validator".
pub get_sub_event_label :
    (ext : External) (route type : String) (body : MsgBody) (lf : LogFormat) (se : SubsetFields)
    (subs : SubsetEvents)
    → get_sub_event ext (msg route type body) lf ≡ ok (subset se subs)
    → (se.type ≡ label_of type ∷ []) × (se.module_name ≡ module_of route type)
unfolding get_sub_event
get_sub_event_label ext route type body lf se subs h =
    (dispatch-EventLabelled ext type body route lf (events_inside ext body lf)).holds se subs h
