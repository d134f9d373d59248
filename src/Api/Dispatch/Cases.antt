-- ===== src/Api/Dispatch/Cases.antt =====
-- The label of an event, and what the switches over routes and types do with it.
use mathlib.Core.Path.{subst, subst₂}
use terra_worker.Prelude.{
  String, ◌≡◌, refl, inl, inr, ◌&&◌, ◌||◌, Bool-cases, str_eq, eq_iff, if◌then◌else◌,
}
use terra_worker.Go.Outcome.{Outcome, ok, err, panic, ok-injective}
use terra_worker.Structs.{SubsetFields, SubsetEvent, SubsetEvents, subset}
use terra_worker.Structs
use terra_worker.Mapper.Labels.{HasLabel, Labelled}
use terra_worker.Api.Dispatch.{leaf, unknown}

-- the type of an event: that of its message, but a vote on aggregated rates is named a prevote
unfoldable pub label_of : String → String
label_of type =
    if str_eq type "aggregateexchangeratevote" then "aggregateexchangerateprevote" else type

-- the module of an event: the route of its message, but for msgauth, and for the two messages of
-- staking that are filed under distribution
unfoldable pub module_of : String → String → String
module_of route type =
    if str_eq route "msgauth"
    then "msgAuth"
    else if str_eq route "staking"
        && (str_eq type "edit_validator" || str_eq type "create_validator")
    then "distribution"
    else route

pub record EventLabelled (route type : String) (o : Outcome SubsetEvent) : Type 0 where
  pub holds :
      (se : SubsetFields) (subs : SubsetEvents)
      → o ≡ ok (subset se subs)
      → HasLabel (label_of type) (module_of route type) se

fields_of : SubsetEvent → SubsetFields
fields_of (subset se subs) = se

pub fields-injective :
    (se se' : SubsetFields) (subs subs' : SubsetEvents)
    → ok (subset se subs) ≡ ok (subset se' subs')
    → se ≡ se'
unfolding fields_of
fields-injective se se' subs subs' e =
    λ i. fields_of (ok-injective (subset se subs) (subset se' subs') e i)

pub leaf-EventLabelled :
    {route type label module_name : String} (o : Outcome SubsetFields)
    → label ≡ label_of type
    → module_name ≡ module_of route type
    → Labelled label module_name o
    → EventLabelled route type (leaf o)
unfolding leaf
leaf-EventLabelled {route} {type} (ok se) p q l = record {
  holds = λ se' subs e.
      subst (HasLabel (label_of type) (module_of route type))
        (fields-injective se se' Structs.nil subs e)
        (subst₂ (λ t m. HasLabel t m se) p q (l.holds se refl));
}
leaf-EventLabelled (err e) p q l = record { holds = λ se' subs h. cc }
leaf-EventLabelled panic p q l = record { holds = λ se' subs h. cc }

pub unknown-EventLabelled :
    {route type : String} (r t : String) → EventLabelled route type (unknown r t)
unfolding unknown
unknown-EventLabelled r t = record { holds = λ se subs h. cc }

-- one case of a switch over types, and one of the switch over routes
pub type_case :
    {route : String} (type name : String) {a b : Outcome SubsetEvent}
    → EventLabelled route name a
    → EventLabelled route type b
    → EventLabelled route type (if str_eq type name then a else b)
type_case type name la lb = elim (Bool-cases (str_eq type name)) [
  | inl same ↦ rw (same, (eq_iff type name).0 same) la
  | inr other ↦ rw other lb
]

pub route_case :
    {type : String} (route name : String) {a b : Outcome SubsetEvent}
    → EventLabelled name type a
    → EventLabelled route type b
    → EventLabelled route type (if str_eq route name then a else b)
route_case route name la lb = elim (Bool-cases (str_eq route name)) [
  | inl same ↦ rw (same, (eq_iff route name).0 same) la
  | inr other ↦ rw other lb
]
