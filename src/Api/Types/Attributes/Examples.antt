-- ===== src/Api/Types/Attributes/Examples.antt =====
-- Attributes decoded at concrete pairs, and the theorems applied to them.
use terra_worker.Prelude.{String, All, str_eq, false, ◌≡◌, refl, none, some, List, [], ◌∷◌, map}
use terra_worker.Go.Outcome.{ok}
use terra_worker.Go.Map.{get}
use terra_worker.Api.Types.{TxEventsAttributes}
use terra_worker.Api.Types.Attributes.{
  KvHolder, or_empty, read_pairs, unmarshal_attributes, no_attributes,
}
use terra_worker.Api.Types.Attributes.Cases.{values}
use terra_worker.Api.Types.Attributes.Collected.{
  whole_pair, known_keys, unmarshal_attributes-values, read_pairs_stale,
}

abbrev holder : String → String → KvHolder
holder k v = record { key = k; value = v }

abbrev transfer : List KvHolder
transfer =
    holder "denom" "uluna"
    ∷ holder "recipient" "terra1aaa"
    ∷ holder "sender" "terra1bbb"
    ∷ holder "amount" "5uluna"
    ∷ []

denom-IsUnknown : All (λ k. str_eq "denom" k ≡ false) known_keys
denom-IsUnknown =
    (refl, (refl, (refl, (refl, (refl, (refl, (refl, (refl, (refl, (refl, (refl, tt)))))))))))

unmarshal_attributes-values_example :
    (r : TxEventsAttributes) × (unmarshal_attributes no_attributes
        (record { opening = ok tt; pairs = map whole_pair transfer; closing = ok tt })
      ≡ ok r)
    × (r.sender ≡ values "sender" transfer)
    × (r.recipient ≡ values "recipient" transfer)
    × (r.amount ≡ values "amount" transfer)
    × (r.feeder ≡ values "feeder" transfer)
    × (r.voter ≡ values "voter" transfer)
    × (or_empty (get r.validator "validator") ≡ values "validator" transfer)
    × (or_empty (get r.validator "destination_validator") ≡ values "destination_validator" transfer)
    × (or_empty (get r.validator "source_validator") ≡ values "source_validator" transfer)
    × (or_empty (get r.others "denom") ≡ values "denom" transfer)
unmarshal_attributes-values_example = unmarshal_attributes-values transfer "denom" denom-IsUnknown

-- the amount is taken for the sender
read_pairs_stale_example :
    read_pairs no_attributes (holder "" "") (
      whole_pair (holder "amount" "5uluna")
      ∷ ok (record { key = some "sender"; value = none })
      ∷ [])
    ≡ read_pairs no_attributes
        (holder "" "")
        (whole_pair (holder "amount" "5uluna") ∷ whole_pair (holder "sender" "5uluna") ∷ [])
read_pairs_stale_example =
    read_pairs_stale (holder "amount" "5uluna") "sender" no_attributes (holder "" "") []
