-- ===== src/Mapper/Messages.antt =====
-- The messages that the mappers take apart: types of cosmos-sdk and of terra's core, with the fields
-- that api/mapper reads. A value of a foreign type with methods stands for what the methods return.
pub mod Assertions
use terra_worker.Prelude.{ℕ, String, Bool, Option, List}
use terra_worker.Prelude.Int.{ℤ}
use terra_worker.Go.Outcome.{GoError}

-- sdk.AccAddress and sdk.ValAddress, by their bytes
abbrev pub Address : Type 0
Address = List ℕ

-- sdk.Int, by BigInt() (which may be nil) and String()
pub record SdkInt : Type 0 where
  pub big_int : Option ℤ
  pub string : String

-- sdk.Dec, by its field Int (which may be nil) and String()
pub record SdkDec : Type 0 where
  pub int : Option ℤ
  pub string : String

-- sdk.Coin, with its String()
pub record Coin : Type 0 where
  pub denom : String
  pub amount : SdkInt
  pub string : String

-- what MarshalJSON() returns: the bytes as a text, and the error if there is one
abbrev pub Marshalled : Type 0
Marshalled = String × Option GoError

-- the inputs and outputs of bank.MsgMultiSend
pub record InOut : Type 0 where
  pub address : Address
  pub coins : List Coin

pub record MsgMultiSend : Type 0 where
  pub inputs : List InOut
  pub outputs : List InOut

pub record MsgSend : Type 0 where
  pub from_address : Address
  pub to_address : Address
  pub amount : List Coin

pub record MsgVerifyInvariant : Type 0 where
  pub sender : Address
  pub invariant_module_name : String
  pub invariant_route : String

pub record MsgWithdrawValidatorCommission : Type 0 where
  pub validator_address : Address

pub record MsgSetWithdrawAddress : Type 0 where
  pub delegator_address : Address
  pub withdraw_address : Address

pub record MsgWithdrawDelegatorReward : Type 0 where
  pub delegator_address : Address
  pub validator_address : Address

pub record MsgFundCommunityPool : Type 0 where
  pub amount : List Coin
  pub depositor : Address

pub record MsgSubmitEvidence : Type 0 where
  pub submitter : Address
  -- GetConsensusAddress().String(), GetHeight(), GetTotalPower(), GetValidatorPower()
  pub consensus_address : String
  pub height : ℤ
  pub total_power : ℤ
  pub validator_power : ℤ

pub record MsgDeposit : Type 0 where
  pub proposal_id : ℕ
  pub depositor : Address
  pub amount : List Coin

pub record MsgVote : Type 0 where
  pub proposal_id : ℕ
  pub voter : Address
  pub option : String

-- the content of a proposal, by its methods
pub record Content : Type 0 where
  pub proposal_route : String
  pub proposal_type : String
  pub get_description : String
  pub get_title : String
  pub string : String

pub record MsgSubmitProposal : Type 0 where
  pub content : Content
  pub initial_deposit : List Coin
  pub proposer : Address

pub record MsgSwap : Type 0 where
  pub trader : Address
  pub offer_coin : Coin
  pub ask_denom : String

pub record MsgSwapSend : Type 0 where
  pub from_address : Address
  pub to_address : Address
  pub offer_coin : Coin
  pub ask_denom : String

pub record MsgGrantAuthorization : Type 0 where
  pub granter : Address
  pub grantee : Address
  pub authorization_msg_type : String
  pub period : String

pub record MsgRevokeAuthorization : Type 0 where
  pub granter : Address
  pub grantee : Address
  pub authorization_msg_type : String

pub record MsgExchangeRateVote : Type 0 where
  pub exchange_rate : SdkDec
  pub denom : String
  pub feeder : Address
  pub validator : Address

pub record MsgExchangeRatePrevote : Type 0 where
  pub denom : String
  pub feeder : Address
  pub validator : Address

pub record MsgDelegateFeedConsent : Type 0 where
  pub operator : Address
  pub delegate : Address

pub record MsgAggregateExchangeRatePrevote : Type 0 where
  pub hash : String
  pub feeder : Address
  pub validator : Address

pub record MsgAggregateExchangeRateVote : Type 0 where
  pub salt : String
  pub exchange_rates : String
  pub feeder : Address
  pub validator : Address

pub record MsgUnjail : Type 0 where
  pub validator_addr : Address

-- staking.MsgUndelegate and staking.MsgDelegate have the same fields
pub record MsgUndelegate : Type 0 where
  pub delegator_address : Address
  pub validator_address : Address
  pub amount : Coin

pub record MsgDelegate : Type 0 where
  pub delegator_address : Address
  pub validator_address : Address
  pub amount : Coin

pub record MsgBeginRedelegate : Type 0 where
  pub delegator_address : Address
  pub validator_src_address : Address
  pub validator_dst_address : Address
  pub amount : Coin

pub record Description : Type 0 where
  pub moniker : String
  pub website : String
  pub security_contact : String
  pub details : String

pub record MsgCreateValidator : Type 0 where
  pub description : Description
  -- Commission.Rate, Commission.MaxRate, Commission.MaxChangeRate
  pub rate : SdkDec
  pub max_rate : SdkDec
  pub max_change_rate : SdkDec
  pub min_self_delegation : SdkInt
  pub delegator_address : Address
  pub validator_address : Address
  pub value : Coin

-- the two pointers may be nil
pub record MsgEditValidator : Type 0 where
  pub description : Description
  pub validator_address : Address
  pub commission_rate : Option SdkDec
  pub min_self_delegation : Option SdkInt

pub record MsgExecuteContract : Type 0 where
  pub sender : Address
  pub execute_msg : Marshalled
  pub coins : List Coin

pub record MsgStoreCode : Type 0 where
  pub sender : Address
  pub wasm_byte_code : Marshalled

pub record MsgUpdateContractOwner : Type 0 where
  pub owner : Address
  pub new_owner : Address
  pub contract : Address

pub record MsgInstantiateContract : Type 0 where
  pub owner : Address
  pub code_id : ℕ
  pub init_msg : Marshalled
  pub init_coins : List Coin
  pub migratable : Bool

pub record MsgMigrateContract : Type 0 where
  pub owner : Address
  pub contract : Address
  pub new_code_id : ℕ
  pub migrate_msg : Marshalled

-- sdk.Msg: what Route() and Type() return, and the value of a concrete type behind the interface
mutual
  pub data Msg : Type 0 where
    msg : String → String → MsgBody → Msg

  pub data MsgBody : Type 0 where
    multi_send : MsgMultiSend → MsgBody
    send : MsgSend → MsgBody
    verify_invariant : MsgVerifyInvariant → MsgBody
    withdraw_validator_commission : MsgWithdrawValidatorCommission → MsgBody
    set_withdraw_address : MsgSetWithdrawAddress → MsgBody
    withdraw_delegator_reward : MsgWithdrawDelegatorReward → MsgBody
    fund_community_pool : MsgFundCommunityPool → MsgBody
    submit_evidence : MsgSubmitEvidence → MsgBody
    deposit : MsgDeposit → MsgBody
    vote : MsgVote → MsgBody
    submit_proposal : MsgSubmitProposal → MsgBody
    swap : MsgSwap → MsgBody
    swap_send : MsgSwapSend → MsgBody
    grant_authorization : MsgGrantAuthorization → MsgBody
    revoke_authorization : MsgRevokeAuthorization → MsgBody
    -- msgauth.MsgExecAuthorized: the grantee and the messages
    exec_authorized : Address → Msgs → MsgBody
    exchange_rate_vote : MsgExchangeRateVote → MsgBody
    exchange_rate_prevote : MsgExchangeRatePrevote → MsgBody
    delegate_feed_consent : MsgDelegateFeedConsent → MsgBody
    aggregate_exchange_rate_prevote : MsgAggregateExchangeRatePrevote → MsgBody
    aggregate_exchange_rate_vote : MsgAggregateExchangeRateVote → MsgBody
    unjail : MsgUnjail → MsgBody
    undelegate : MsgUndelegate → MsgBody
    delegate : MsgDelegate → MsgBody
    begin_redelegate : MsgBeginRedelegate → MsgBody
    create_validator : MsgCreateValidator → MsgBody
    edit_validator : MsgEditValidator → MsgBody
    execute_contract : MsgExecuteContract → MsgBody
    store_code : MsgStoreCode → MsgBody
    update_contract_owner : MsgUpdateContractOwner → MsgBody
    instantiate_contract : MsgInstantiateContract → MsgBody
    migrate_contract : MsgMigrateContract → MsgBody
    -- a concrete type that no mapper asks for
    unlisted : MsgBody

  pub data Msgs : Type 0 where
    nil : Msgs
    cons : Msg → Msgs → Msgs
