-- ===== src/Api/Dispatch/Supported.antt =====
-- The messages that `getSubEvent` supports, and those that README.md lists by module.
use Prim.Native.String.{◌++◌ as append}
use terra_worker.Prelude.{String, Bool, false, ◌||◌, List, [], ◌∷◌, str_eq, if◌then◌else◌}
use terra_worker.Go.Outcome.{Outcome}
use terra_worker.External.{External}

-- the list of README.md, "Transaction Types"
abbrev pub transaction_types : List (String × List String)
transaction_types =
    ("bank", "multisend" ∷ "send" ∷ [])
    ∷ ("crisis", "verify_invariant" ∷ [])
    ∷ (
      "distribution",
      "withdraw_validator_commission" ∷ "set_withdraw_address" ∷ "withdraw_delegator_reward"
          ∷ "fund_community_pool" ∷ [],
    )
    ∷ ("evidence", "submit_evidence" ∷ [])
    ∷ ("gov", "deposit" ∷ "vote" ∷ "submit_proposal" ∷ [])
    ∷ ("market", "swap" ∷ "swapsend" ∷ [])
    ∷ ("msgauth", "grant_authorization" ∷ "revoke_authorization" ∷ "exec_delegated" ∷ [])
    ∷ (
      "oracle",
      "exchangeratevote" ∷ "exchangerateprevote" ∷ "delegatefeeder" ∷ "aggregateexchangerateprevote"
          ∷ "aggregateexchangeratevote" ∷ [],
    )
    ∷ ("slashing", "unjail" ∷ [])
    ∷ (
      "staking",
      "begin_unbonding" ∷ "edit_validator" ∷ "create_validator" ∷ "delegate" ∷ "begin_redelegate"
          ∷ [],
    )
    ∷ (
      "wasm",
      "execute_contract" ∷ "store_code" ∷ "update_contract_owner" ∷ "instantiate_contract"
          ∷ "migrate_contract" ∷ [],
    )
    ∷ ("internal", "error" ∷ [])
    ∷ []

abbrev listed : String → List String → Bool
listed t [] = false
listed t (name ∷ names) = str_eq t name || listed t names

-- the types under the route, if the route is there
abbrev types_of : String → List (String × List String) → List String
types_of route [] = []
types_of route ((name, types) ∷ rest) = if str_eq route name then types else types_of route rest

unfoldable pub is_supported : String → String → Bool
is_supported route type = listed type (types_of route transaction_types)
