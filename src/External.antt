-- ===== src/External.antt =====
-- Code that the mappers call and that is not in this repository, as a parameter of the model.
use terra_worker.Prelude.{ℕ, String, Bool, Option, List}
use terra_worker.Prelude.Int.{ℤ}
use terra_worker.Go.Outcome.{GoError}

pub record External : Type 0 where
  -- bech32.ConvertAndEncode(prefix, bytes): the text, and the error if there is one
  pub convert_and_encode : String → List ℕ → String × Option GoError
  -- util.Bech32PrefixAccAddr and util.Bech32PrefixValAddr
  pub bech32_prefix_acc_addr : String
  pub bech32_prefix_val_addr : String
  -- what a failed big.Int SetString leaves in its receiver, which math/big calls undefined
  pub undefined_number : String → ℤ
  -- Empty() of sdk.AccAddress and of sdk.ValAddress, and String() of sdk.AccAddress
  pub acc_address_empty : List ℕ → Bool
  pub val_address_empty : List ℕ → Bool
  pub acc_address_string : List ℕ → String
