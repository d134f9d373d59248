-- ===== src/Mapper/Msgauth.antt =====
-- api/mapper/msgauth.go
use terra_worker.Prelude.{Bool, true, false, List, [], ◌∷◌, if◌then◌else◌}
use terra_worker.Go.Outcome.{Outcome, ok, ◌>>=◌}
use terra_worker.Go.Map.{GoMap, put}
use terra_worker.Structs.{Account, SubsetFields, account, no_fields}
use terra_worker.External.{External}
use terra_worker.Mapper.Messages.{MsgBody, Msgs, Address}
use terra_worker.Mapper.Messages.Assertions.{
  as_exec_authorized, as_grant_authorization, as_revoke_authorization,
}
use terra_worker.Mapper.Encoding.{asserted, checked, encode_acc}

module _ (ext : External) where
  -- the event and the messages that it carries
  unfoldable pub msgauth_exec_authorized_to_sub : MsgBody → Outcome (SubsetFields × Msgs)
  unfolding encode_acc
  msgauth_exec_authorized_to_sub body = do
    exec_authorized ← asserted (as_exec_authorized body) "Not a exec_delegated type"
    let grantee = exec_authorized.0
    let addr = if ext.acc_address_empty grantee then "" else (encode_acc ext grantee).0
    ok (
      record no_fields {
        type = "exec_delegated" ∷ [];
        module_name = "msgAuth";
        node = ("grantee", account addr ∷ []) ∷ [];
      },
      exec_authorized.1,
    )

  -- The two accounts of a grant: both tests ask whether the grantee is empty.
  unfoldable pub authorization_node : Bool → Address → Address → Outcome (GoMap (List Account))
  authorization_node true grantee granter = ok []
  authorization_node false grantee granter = do
    to ← checked (encode_acc ext grantee) "error converting ValidatorAddress"
    by ← checked (encode_acc ext granter) "error converting ValidatorAddress"
    ok (put (put [] "grantee" (account to ∷ [])) "granter" (account by ∷ []))

  unfoldable pub msgauth_grant_authorization_to_sub : MsgBody → Outcome SubsetFields
  unfolding authorization_node
  msgauth_grant_authorization_to_sub body = do
    grant ← asserted (as_grant_authorization body) "Not a grant_authorization type"
    node ← authorization_node (ext.acc_address_empty grant.grantee) grant.grantee grant.granter
    ok (record no_fields {
      type = "grant_authorization" ∷ [];
      module_name = "msgAuth";
      node = node;
      additional = ("type", grant.authorization_msg_type ∷ []) ∷ ("period", grant.period ∷ []) ∷ [];
    })

  unfoldable pub msgauth_revoke_authorization_to_sub : MsgBody → Outcome SubsetFields
  unfolding authorization_node
  msgauth_revoke_authorization_to_sub body = do
    revoke ← asserted (as_revoke_authorization body) "Not a revoke_authorization type"
    node ← authorization_node (ext.acc_address_empty revoke.grantee) revoke.grantee revoke.granter
    ok (record no_fields {
      type = "revoke_authorization" ∷ [];
      module_name = "msgAuth";
      node = node;
      additional = ("type", revoke.authorization_msg_type ∷ []) ∷ [];
    })
