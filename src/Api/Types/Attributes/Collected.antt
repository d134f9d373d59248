-- ===== src/Api/Types/Attributes/Collected.antt =====
-- Which values of the pairs each field collects.
use terra_worker.Prelude.{String, false, none, some, List, [], ◌∷◌, ◌≡◌, refl, str_eq, map, All}
use terra_worker.Go.Outcome.{Outcome, ok}
use terra_worker.Go.Map.{get}
use terra_worker.Api.Types.{TxEventsAttributes}
use terra_worker.Api.Types.Attributes.{
  KvHolder, Pair, or_empty, cases, find_case, take_pair, read_pairs, unmarshal_attributes,
  no_attributes,
}
use terra_worker.Api.Types.Attributes.Cases.{
  values, take_pairs, Appends-take_pairs, find_case-default, sender-Appends, recipient-Appends,
  amount-Appends, feeder-Appends, voter-Appends, validator-Appends, others-Appends,
}

-- an object that has both texts
unfoldable pub whole_pair : KvHolder → Outcome Pair
whole_pair p = ok (record { key = some p.key; value = some p.value })

read_pairs-whole :
    (ps : List KvHolder) (lea : TxEventsAttributes) (kc : KvHolder)
    → read_pairs lea kc (map whole_pair ps) ≡ ok (take_pairs lea ps)
unfolding read_pairs whole_pair
read_pairs-whole [] lea kc = refl
read_pairs-whole (p ∷ ps) lea kc = read_pairs-whole ps (take_pair lea p) p

-- the keys with a field of their own
abbrev pub known_keys : List String
known_keys =
    "validator" ∷ "destination_validator" ∷ "source_validator" ∷ "sender" ∷ "recipient" ∷ "feeder"
    ∷ "voter" ∷ "module" ∷ "action" ∷ "completion_time" ∷ "amount" ∷ []

-- For a list of objects that have both a key and a value, between brackets, and a key without a
-- field of its own, the attributes are decoded, and the senders, recipients, amounts, feeders,
-- voters, the validators under each of the three validator keys, and the others under that key are
-- the values under the key in question, in order.
pub unmarshal_attributes-values :
    (ps : List KvHolder) (j : String)
    → All (λ k. str_eq j k ≡ false) known_keys
    → (r : TxEventsAttributes) × (unmarshal_attributes no_attributes
          (record { opening = ok tt; pairs = map whole_pair ps; closing = ok tt })
        ≡ ok r)
      × (r.sender ≡ values "sender" ps)
      × (r.recipient ≡ values "recipient" ps)
      × (r.amount ≡ values "amount" ps)
      × (r.feeder ≡ values "feeder" ps)
      × (r.voter ≡ values "voter" ps)
      × (or_empty (get r.validator "validator") ≡ values "validator" ps)
      × (or_empty (get r.validator "destination_validator") ≡ values "destination_validator" ps)
      × (or_empty (get r.validator "source_validator") ≡ values "source_validator" ps)
      × (or_empty (get r.others j) ≡ values j ps)
unfolding unmarshal_attributes values or_empty get find_case
unmarshal_attributes-values ps j h = (
  take_pairs no_attributes ps,
  rw (read_pairs-whole ps no_attributes (record { key = ""; value = "" })) refl,
  Appends-take_pairs "sender" _ sender-Appends ps no_attributes,
  Appends-take_pairs "recipient" _ recipient-Appends ps no_attributes,
  Appends-take_pairs "amount" _ amount-Appends ps no_attributes,
  Appends-take_pairs "feeder" _ feeder-Appends ps no_attributes,
  Appends-take_pairs "voter" _ voter-Appends ps no_attributes,
  Appends-take_pairs "validator" _ (validator-Appends "validator" refl) ps no_attributes,
  Appends-take_pairs "destination_validator" _ (validator-Appends "destination_validator" refl) ps
      no_attributes,
  Appends-take_pairs "source_validator" _ (validator-Appends "source_validator" refl) ps
      no_attributes,
  Appends-take_pairs j _ (others-Appends j (find_case-default j cases h)) ps no_attributes,
)

-- An object that has a key but no value, behind an object that has both, is read as if it had the
-- value of the object before it.
pub read_pairs_stale :
    (p : KvHolder) (k : String) (lea : TxEventsAttributes) (kc : KvHolder)
    (os : List (Outcome Pair))
    → read_pairs lea kc (whole_pair p ∷ ok (record { key = some k; value = none }) ∷ os)
      ≡ read_pairs lea kc (whole_pair p ∷ whole_pair (record { key = k; value = p.value }) ∷ os)
unfolding read_pairs whole_pair
read_pairs_stale p k lea kc os = refl
