-- ===== src/Mapper/Labels.antt =====
-- Every event that a mapper returns carries the type and the module that the mapper names.
pub mod Mappers
use terra_worker.Prelude.{◌≡◌, refl, String, List, [], ◌∷◌, ◌∙◌}
use mathlib.Core.Path.{subst}
use terra_worker.Go.Outcome.{Outcome, ok, err, panic, ◌>>=◌, ok_of_bind, ok-injective}
use terra_worker.Structs.{SubsetFields, EventTransfer}
use terra_worker.Api.Types.{LogFormat}
use terra_worker.External.{External}
use terra_worker.Mapper.Bank.{event_transfers, set_transfers, produce_transfers}

abbrev pub HasLabel : String → String → SubsetFields → Type 0
HasLabel type module_name se = (se.type ≡ type ∷ []) × (se.module_name ≡ module_name)

-- what an outcome returns, if it returns
pub record Labelled (type module_name : String) (o : Outcome SubsetFields) : Type 0 where
  pub holds : (se : SubsetFields) → o ≡ ok se → HasLabel type module_name se

module _ {type module_name : String} where
  pub Labelled-bind {ℓ} :
      {A : Type ℓ} (m : Outcome A) (f : A → Outcome SubsetFields)
      → ((a : A) → Labelled type module_name (f a))
      → Labelled type module_name (m >>= f)
  Labelled-bind m f h = record {
    holds = λ se e. let (a, _, e') = ok_of_bind m f e in (h a).holds se e';
  }

  pub Labelled-ok :
      (se : SubsetFields) → HasLabel type module_name se → Labelled type module_name (ok se)
  Labelled-ok se h = record {
    holds = λ se' e. subst (HasLabel type module_name) (ok-injective se se' e) h;
  }

  set_transfers-HasLabel :
      (se : SubsetFields) (transfer_type : String) (evts : List EventTransfer)
      → HasLabel type module_name se
      → HasLabel type module_name (set_transfers se transfer_type evts)
  unfolding set_transfers
  set_transfers-HasLabel se transfer_type [] h = h
  set_transfers-HasLabel se transfer_type (evt ∷ evts) h = h

  pub produce_transfers-Labelled :
      (ext : External) (se : SubsetFields) (transfer_type skip_addr : String) (logf : LogFormat)
      → HasLabel type module_name se
      → Labelled type module_name (produce_transfers ext se transfer_type skip_addr logf)
  unfolding produce_transfers
  produce_transfers-Labelled ext se transfer_type skip_addr logf h =
      Labelled-bind (event_transfers ext skip_addr logf.events) _
        λ evts. Labelled-ok _ (set_transfers-HasLabel se transfer_type evts h)

pub ruleset label_rules = (Labelled-bind, Labelled-ok, produce_transfers-Labelled)
