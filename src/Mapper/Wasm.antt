-- ===== src/Mapper/Wasm.antt =====
-- api/mapper/wasm.go
use terra_worker.Prelude.{ℕ, suc, List, [], ◌∷◌, map, if◌then◌else◌}
use Prim.Native.String.{◌++◌ as append}
use terra_worker.Go.Outcome.{Outcome, ok, ◌>>=◌}
use terra_worker.Go.Map.{GoMap, put}
use terra_worker.Go.Text.{format_uint}
use terra_worker.Structs.{TransactionAmount, SubsetFields, account, no_fields}
use terra_worker.External.{External}
use terra_worker.Mapper.Messages.{MsgBody, Coin}
use terra_worker.Mapper.Messages.Assertions.{
  as_execute_contract, as_instantiate_contract, as_migrate_contract, as_store_code,
  as_update_contract_owner,
}
use terra_worker.Mapper.Encoding.{asserted, checked, coin_amount, bare_transfer, encode_acc}

-- the loop over the initial coins of a contract, from index `i` on
unfoldable pub init_coin_amounts : ℕ → List Coin → GoMap TransactionAmount → GoMap TransactionAmount
init_coin_amounts i [] amounts = amounts
init_coin_amounts i (coin ∷ coins) amounts =
    init_coin_amounts (suc i) coins
      (put amounts (append "init_coin_" (format_uint i)) (coin_amount coin))

module _ (ext : External) where
  unfoldable pub wasm_execute_contract_to_sub : MsgBody → Outcome SubsetFields
  wasm_execute_contract_to_sub body = do
    ec ← asserted (as_execute_contract body) "Not a execute_contract type"
    sender ← checked (encode_acc ext ec.sender) "error converting Sender address"
    b ← checked ec.execute_msg "error converting ExecuteMsg"
    ok (record no_fields {
      type = "execute_contract" ∷ [];
      module_name = "wasm";
      sender = record { account = account sender; amounts = map coin_amount ec.coins } ∷ [];
      additional = ("execute_message", b ∷ []) ∷ [];
    })

  unfoldable pub wasm_store_code_to_sub : MsgBody → Outcome SubsetFields
  wasm_store_code_to_sub body = do
    sc ← asserted (as_store_code body) "Not a store_code type"
    sender ← checked (encode_acc ext sc.sender) "error converting Sender address"
    b ← checked sc.wasm_byte_code "error converting ExecuteMsg"
    ok (record no_fields {
      type = "store_code" ∷ [];
      module_name = "wasm";
      sender = bare_transfer sender ∷ [];
      additional = ("wasm_byte_code", b ∷ []) ∷ [];
    })

  unfoldable pub wasm_msg_update_contract_owner_to_sub : MsgBody → Outcome SubsetFields
  wasm_msg_update_contract_owner_to_sub body = do
    uco ← asserted (as_update_contract_owner body) "Not a update_contract_owner type"
    contract ← checked (encode_acc ext uco.contract) "error converting cntract address"
    new_owner ← checked (encode_acc ext uco.new_owner) "error converting new owner address"
    owner ← checked (encode_acc ext uco.owner) "error converting owner address"
    ok (record no_fields {
      type = "update_contract_owner" ∷ [];
      module_name = "wasm";
      additional = ("contract", contract ∷ []) ∷ [];
      node = ("new_owner", account new_owner ∷ []) ∷ ("owner", account owner ∷ []) ∷ [];
    })

  unfoldable pub wasm_msg_instantiate_contract_to_sub : MsgBody → Outcome SubsetFields
  unfolding init_coin_amounts
  wasm_msg_instantiate_contract_to_sub body = do
    ic ← asserted (as_instantiate_contract body) "Not a instantiate_contract type"
    owner ← checked (encode_acc ext ic.owner) "error converting owner address"
    b ← checked ic.init_msg "error converting InitMsg"
    ok (record no_fields {
      type = "instantiate_contract" ∷ [];
      module_name = "wasm";
      additional =
          ("migratable", (if ic.migratable then "true" else "false") ∷ [])
          ∷ ("code_id", format_uint ic.code_id ∷ [])
          ∷ ("init_msg", b ∷ [])
          ∷ [];
      node = ("owner", account owner ∷ []) ∷ [];
      amount = init_coin_amounts 0 ic.init_coins [];
    })

  unfoldable pub wasm_msg_migrate_contract_to_sub : MsgBody → Outcome SubsetFields
  wasm_msg_migrate_contract_to_sub body = do
    mc ← asserted (as_migrate_contract body) "Not a migrate_contract type"
    contract ← checked (encode_acc ext mc.contract) "error converting contract address"
    owner ← checked (encode_acc ext mc.owner) "error converting owner address"
    b ← checked mc.migrate_msg "error converting ExecuteMsg"
    ok (record no_fields {
      type = "migrate_contract" ∷ [];
      module_name = "wasm";
      additional =
          ("contract", contract ∷ [])
          ∷ ("new_code_id", format_uint mc.new_code_id ∷ [])
          ∷ ("migrate_msg", b ∷ [])
          ∷ [];
      node = ("owner", account owner ∷ []) ∷ [];
    })
