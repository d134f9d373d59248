-- ===== src/Mapper/Staking.antt =====
-- api/mapper/staking.go
use terra_worker.Prelude.{String, Option, none, some, [], ◌∷◌}
use terra_worker.Go.Outcome.{Outcome, ok, ◌>>=◌}
use terra_worker.Go.Map.{GoMap, put}
use terra_worker.Structs.{TransactionAmount, Account, SubsetFields, account, no_fields}
use terra_worker.Api.Types.{LogFormat}
use terra_worker.External.{External}
use terra_worker.Mapper.Messages.{MsgBody, SdkInt, SdkDec, Description}
use terra_worker.Mapper.Messages.Assertions.{
  as_begin_redelegate, as_create_validator, as_delegate, as_edit_validator, as_undelegate,
}
use terra_worker.Mapper.Encoding.{
  asserted, checked, amount_with_text, int_amount, dec_amount, encode_acc, encode_val,
}
use terra_worker.Mapper.Bank.{produce_transfers}

abbrev pub unbonded_tokens_pool_addr : String
unbonded_tokens_pool_addr = "terra1tygms3xhhs3yv487phx3dw4a95jn7t7l8l07dr"

-- the account of a validator with its details
abbrev pub described : String → Description → Account
described id d = record {
  id = id;
  details = some (record {
    name = d.moniker;
    description = d.details;
    contact = d.security_contact;
    website = d.website;
  });
}

-- the two optional amounts of an edited validator
unfoldable pub edited_amounts : Option SdkInt → Option SdkDec → GoMap TransactionAmount
edited_amounts none none = []
edited_amounts (some n) none = put [] "self_delegation_min" (int_amount n)
edited_amounts none (some d) = put [] "commission_rate" (dec_amount d)
edited_amounts (some n) (some d) =
    put (put [] "self_delegation_min" (int_amount n)) "commission_rate" (dec_amount d)

module _ (ext : External) where
  unfoldable pub staking_undelegate_to_sub : MsgBody → LogFormat → Outcome SubsetFields
  staking_undelegate_to_sub body logf = do
    u ← asserted (as_undelegate body) "Not a begin_unbonding type"
    val ← checked (encode_val ext u.validator_address) "error converting ValidatorAddress"
    del ← checked (encode_acc ext u.delegator_address) "error converting DelegatorAddress"
    produce_transfers ext
        (record no_fields {
          type = "begin_unbonding" ∷ [];
          module_name = "staking";
          node = ("delegator", account del ∷ []) ∷ ("validator", account val ∷ []) ∷ [];
          amount = ("undelegate", amount_with_text u.amount u.amount.string) ∷ [];
        })
        "reward" unbonded_tokens_pool_addr logf

  unfoldable pub staking_delegate_to_sub : MsgBody → LogFormat → Outcome SubsetFields
  staking_delegate_to_sub body logf = do
    d ← asserted (as_delegate body) "Not a delegate type"
    val ← checked (encode_val ext d.validator_address) "error converting ValidatorAddress"
    del ← checked (encode_acc ext d.delegator_address) "error converting DelegatorAddress"
    produce_transfers ext
        (record no_fields {
          type = "delegate" ∷ [];
          module_name = "staking";
          node = ("delegator", account del ∷ []) ∷ ("validator", account val ∷ []) ∷ [];
          amount = ("delegate", amount_with_text d.amount d.amount.string) ∷ [];
        })
        "reward" "" logf

  unfoldable pub staking_begin_redelegate_to_sub : MsgBody → LogFormat → Outcome SubsetFields
  staking_begin_redelegate_to_sub body logf = do
    br ← asserted (as_begin_redelegate body) "Not a begin_redelegate type"
    dst ← checked (encode_val ext br.validator_dst_address) "error converting ValidatorAddress"
    src ← checked (encode_val ext br.validator_src_address) "error converting ValidatorAddress"
    del ← checked (encode_acc ext br.delegator_address) "error converting DelegatorAddress"
    produce_transfers ext
        (record no_fields {
          type = "begin_redelegate" ∷ [];
          module_name = "staking";
          node =
              ("delegator", account del ∷ [])
              ∷ ("validator_destination", account dst ∷ [])
              ∷ ("validator_source", account src ∷ [])
              ∷ [];
          amount = ("delegate", amount_with_text br.amount br.amount.string) ∷ [];
        })
        "reward" "" logf

  unfoldable pub staking_create_validator_to_sub : MsgBody → Outcome SubsetFields
  staking_create_validator_to_sub body = do
    ev ← asserted (as_create_validator body) "Not a create_validator type"
    val ← checked (encode_val ext ev.validator_address) "error converting ValidatorAddress"
    del ← checked (encode_acc ext ev.delegator_address) "error converting DelegatorAddress"
    ok (record no_fields {
      type = "create_validator" ∷ [];
      module_name = "distribution";
      node =
          ("delegator", account del ∷ []) ∷ ("validator", described val ev.description ∷ []) ∷ [];
      amount =
          ("self_delegation", amount_with_text ev.value ev.value.string)
          ∷ ("self_delegation_min", int_amount ev.min_self_delegation)
          ∷ ("commission_rate", dec_amount ev.rate)
          ∷ ("commission_max_rate", dec_amount ev.max_rate)
          ∷ ("commission_max_change_rate", dec_amount ev.max_change_rate)
          ∷ [];
    })

  unfoldable pub staking_edit_validator_to_sub : MsgBody → Outcome SubsetFields
  unfolding edited_amounts
  staking_edit_validator_to_sub body = do
    ev ← asserted (as_edit_validator body) "Not a edit_validator type"
    val ← checked (encode_val ext ev.validator_address) "error converting ValidatorAddress"
    ok (record no_fields {
      type = "edit_validator" ∷ [];
      module_name = "distribution";
      node = ("validator", described val ev.description ∷ []) ∷ [];
      amount = edited_amounts ev.min_self_delegation ev.commission_rate;
    })
