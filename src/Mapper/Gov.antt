-- ===== src/Mapper/Gov.antt =====
-- api/mapper/gov.go
use terra_worker.Prelude.{ℕ, zero, suc, String, List, [], ◌∷◌, map, if◌then◌else◌, str_eq}
use Prim.Native.String.{◌++◌ as append}
use terra_worker.Go.Outcome.{Outcome, ok, ◌>>=◌}
use terra_worker.Go.Map.{GoMap, put}
use terra_worker.Go.Text.{format_uint}
use terra_worker.Structs.{TransactionAmount, SubsetFields, account, no_fields}
use terra_worker.Api.Types.{LogFormat}
use terra_worker.External.{External}
use terra_worker.Mapper.Messages.{MsgBody, Coin, Content}
use terra_worker.Mapper.Messages.Assertions.{as_deposit, as_submit_proposal, as_vote}
use terra_worker.Mapper.Encoding.{asserted, coin_amount}
use terra_worker.Mapper.Bank.{produce_transfers}

-- the key of the i-th coin: the name alone for the first
unfoldable pub deposit_key : String → ℕ → String
deposit_key name zero = name
deposit_key name (suc i) = append name (append "_" (format_uint (suc i)))

-- the loop over the coins of a deposit, from index `i` on
unfoldable pub deposit_amounts :
    String → ℕ → List Coin → GoMap TransactionAmount → GoMap TransactionAmount
unfolding deposit_key
deposit_amounts name i [] tx_amount = tx_amount
deposit_amounts name i (coin ∷ coins) tx_amount =
    deposit_amounts name (suc i) coins (put tx_amount (deposit_key name i) (coin_amount coin))

-- if text != "" { m[key] = []string{text} }
unfoldable pub put_text : GoMap (List String) → String → String → GoMap (List String)
put_text m key text = if str_eq text "" then m else put m key (text ∷ [])

unfoldable pub content_texts : Content → GoMap (List String)
unfolding put_text
content_texts c =
    put_text
      (put_text
        (put_text
          (put_text (put_text [] "proposal_route" c.proposal_route) "proposal_type" c.proposal_type)
          "descritpion" c.get_description)
        "title" c.get_title)
      "content" c.string

module _ (ext : External) where
  unfoldable pub gov_deposit_to_sub : MsgBody → LogFormat → Outcome SubsetFields
  unfolding deposit_amounts
  gov_deposit_to_sub body logf = do
    dep ← asserted (as_deposit body) "Not a deposit type"
    let depositor = ext.acc_address_string dep.depositor
    produce_transfers ext
        (record no_fields {
          type = "deposit" ∷ [];
          module_name = "gov";
          node = ("depositor", account depositor ∷ []) ∷ [];
          additional = ("proposalID", format_uint dep.proposal_id ∷ []) ∷ [];
          sender =
              record { account = account depositor; amounts = map coin_amount dep.amount } ∷ [];
          amount = deposit_amounts "deposit" 0 dep.amount [];
        })
        "send" "" logf

  unfoldable pub gov_vote_to_sub : MsgBody → Outcome SubsetFields
  gov_vote_to_sub body = do
    vote ← asserted (as_vote body) "Not a vote type"
    ok (record no_fields {
      type = "vote" ∷ [];
      module_name = "gov";
      node = ("voter", account (ext.acc_address_string vote.voter) ∷ []) ∷ [];
      additional =
          ("proposalID", format_uint vote.proposal_id ∷ []) ∷ ("option", vote.option ∷ []) ∷ [];
    })

  unfoldable pub gov_submit_proposal_to_sub : MsgBody → LogFormat → Outcome SubsetFields
  unfolding deposit_amounts content_texts
  gov_submit_proposal_to_sub body logf = do
    sp ← asserted (as_submit_proposal body) "Not a submit_proposal type"
    let proposer = ext.acc_address_string sp.proposer
    produce_transfers ext
        (record no_fields {
          type = "submit_proposal" ∷ [];
          module_name = "gov";
          node = ("proposer", account proposer ∷ []) ∷ [];
          sender =
              record { account = account proposer; amounts = map coin_amount sp.initial_deposit }
              ∷ [];
          amount = deposit_amounts "initial_deposit" 0 sp.initial_deposit [];
          additional = content_texts sp.content;
        })
        "send" "" logf
