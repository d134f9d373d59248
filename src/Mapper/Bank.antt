-- ===== src/Mapper/Bank.antt =====
-- api/mapper/bank.go: the amounts and transfers that the mappers read from a transaction's log.
pub mod Currency
pub mod Coins
pub mod Sends
mod Examples
use mathlib.Core.Option
use Prim.Native.String.{◌++◌ as append, len}
use terra_worker.Prelude.{
  ℕ, suc, Char, ◌%◌, ◌^◌, code, String, Bool, true, false, not, ◌&&◌, ◌||◌, Option, none, some,
  List, [], ◌∷◌, ltb, ◌==◌, str_eq, get_elem?, length, if◌then◌else◌, ◌++◌,
}
use terra_worker.Prelude.Int.{ℤ}
use terra_worker.Go.Outcome.{Outcome, ok, err, panic, message, ◌>>=◌}
use terra_worker.Go.Map.{get, put}
use terra_worker.Go.Text.{split, replace, is_digit, set_string}
use terra_worker.Structs.{TransactionAmount, EventTransfer, SubsetFields, account}
use terra_worker.Api.Types.{TxEvents, TxEventsAttributes, LogFormat}
use terra_worker.External.{External}

-- The classes of curencyRegex, "([0-9\.\,\-]+)[\s]*([^0-9\s]+)$".
unfoldable pub is_number_char : ℕ → Bool
unfolding is_digit
is_number_char c = is_digit c || c == b'.' || c == b',' || c == b'-'

unfoldable pub is_space : ℕ → Bool
is_space c = c == 9 || c == 10 || c == 12 || c == 13 || c == 32

unfoldable pub is_unit_char : ℕ → Bool
unfolding is_digit is_space
is_unit_char c = not (is_digit c || is_space c)

-- [\s]*
unfoldable pub skip_spaces : String → String
skip_spaces String.[] = String.[]
skip_spaces (String.◌∷◌ c s) = if is_space (code c) then skip_spaces s else String.◌∷◌ c s

unfoldable pub all_unit_chars : String → Bool
all_unit_chars String.[] = true
all_unit_chars (String.◌∷◌ c s) = is_unit_char (code c) && all_unit_chars s

-- ([^0-9\s]+)$ at the start of a text, and that behind [\s]*: the spaces cannot be given back, since
-- the second group takes none
unfoldable pub whole_unit : String → Option String
whole_unit String.[] = none
whole_unit (String.◌∷◌ c s) =
    if all_unit_chars (String.◌∷◌ c s) then some (String.◌∷◌ c s) else none

unfoldable pub match_unit : String → Option String
match_unit s = whole_unit (skip_spaces s)

unfoldable pub or_else {ℓ} : {A : Type ℓ} → Option A → Option A → Option A
or_else none o = o
or_else (some a) o = some a

abbrev pub in_front : Char → String × String → String × String
in_front c (number, unit) = (String.◌∷◌ c number, unit)

-- The rest of the first group, as long as the second group still matches.
unfoldable pub match_number : String → Option (String × String)
unfolding or_else
match_number String.[] = none
match_number (String.◌∷◌ c s) =
    let here = Option.map (λ unit. ("", unit)) (match_unit (String.◌∷◌ c s)) in
    if is_number_char (code c)
    then or_else (Option.map (in_front c) (match_number s)) here
    else here

-- The leftmost match: the whole of it and the two groups; an empty list if there is none.
unfoldable pub submatches : String → Option (String × String) → List String → List String
submatches whole (some (number, unit)) later = whole ∷ number ∷ unit ∷ []
submatches whole none later = later

unfoldable pub get_currency : String → List String
unfolding submatches
get_currency String.[] = []
get_currency (String.◌∷◌ c s) =
    let found =
      if is_number_char (code c) then Option.map (in_front c) (match_number s) else none in
    submatches (String.◌∷◌ c s) found (get_currency s)

-- int32(n), as a bit pattern
abbrev pub to_int32 : ℕ → ℕ
to_int32 n = n % 2 ^ 32

unfoldable pub indexed : Option String → Outcome String
indexed none = panic
indexed (some a) = ok a

-- attr.Amount[i]: an index out of range panics
unfoldable pub index_amount : List String → ℕ → Outcome String
unfolding indexed
index_amount amounts i = indexed (get_elem? amounts i)

-- se.Transfers[transferType] = evts, in a new map if there was no such entry
unfoldable pub set_transfers : SubsetFields → String → List EventTransfer → SubsetFields
set_transfers se transfer_type [] = se
set_transfers se transfer_type (evt ∷ evts) = record se {
  transfers = elim (get se.transfers transfer_type) [
    | none ↦ put [] transfer_type (evt ∷ evts)
    | some _ ↦ put se.transfers transfer_type (evt ∷ evts)
  ];
}

module _ (ext : External) where
  -- number.SetString(s, 10), whose result is not looked at
  unfoldable pub set_unchecked : String → ℤ
  set_unchecked s = Option.get_or (set_string s) (ext.undefined_number s)

  unfoldable pub coin_of_parts : List String → Outcome (ℤ × ℕ)
  unfolding set_unchecked
  coin_of_parts (whole ∷ []) = ok (set_unchecked whole, 0)
  coin_of_parts (whole ∷ fraction ∷ []) =
      ok (set_unchecked (append whole fraction), to_int32 (len fraction))
  coin_of_parts _ = err (message "Impossible to parse ")

  unfoldable pub get_coin : String → Outcome (ℤ × ℕ)
  unfolding coin_of_parts
  get_coin s = coin_of_parts (split (replace s b',' ".") b'.')

  -- the number and the currency of one amount, by the slice that `get_currency` returned
  unfoldable pub sliced_coin : String → List String → Outcome (ℤ × ℕ) × String
  sliced_coin amt (whole ∷ number ∷ unit ∷ []) = (get_coin number, unit)
  sliced_coin amt _ = (get_coin amt, "")

  unfoldable pub amount_of : String → Outcome (ℤ × ℕ) × String → Outcome TransactionAmount
  amount_of amt (ok (c, exp), currency) =
      ok (record { text = amt; currency = currency; numeric = some c; exp = exp })
  amount_of amt (err e, currency) = err (message "[TERRA-API] Error parsing amount")
  amount_of amt (panic, currency) = panic

  -- one round of the loop over the amounts of a recipient
  unfoldable pub parse_amount : String → Outcome TransactionAmount
  unfolding sliced_coin amount_of
  parse_amount amt = amount_of amt (sliced_coin amt (get_currency amt))

  unfoldable pub parse_amounts : List String → Outcome (List TransactionAmount)
  parse_amounts [] = ok []
  parse_amounts (amt ∷ amts) = do
    first ← parse_amount amt
    rest ← parse_amounts amts
    ok (first ∷ rest)

  -- the loop over the recipients of an event, from index `i` on
  unfoldable pub recipient_transfers :
      String → List String → ℕ → List String → Outcome (List EventTransfer)
  recipient_transfers skip_addr amounts i [] = ok []
  recipient_transfers skip_addr amounts i (recip ∷ recips) =
      let rest = recipient_transfers skip_addr amounts (suc i) recips in
      if str_eq recip skip_addr || ltb (length amounts) i then rest else do
        text ← index_amount amounts i
        amts ← parse_amounts (split text b',')
        transfers ← rest
        ok (record { account = account recip; amounts = amts } ∷ transfers)

  -- attr := ev.Attributes; the loop reads through the pointer
  unfoldable pub attribute_transfers :
      String → Option TxEventsAttributes → Outcome (List EventTransfer)
  attribute_transfers skip_addr none = panic
  attribute_transfers skip_addr (some attr) =
      recipient_transfers skip_addr attr.amount 0 attr.recipient

  -- the loop over the events of a log
  unfoldable pub event_transfers : String → List TxEvents → Outcome (List EventTransfer)
  unfolding attribute_transfers
  event_transfers skip_addr [] = ok []
  event_transfers skip_addr (ev ∷ evs) =
      let rest = event_transfers skip_addr evs in
      let here = attribute_transfers skip_addr ev.attributes in
      if str_eq ev.type "transfer"
      then (do first ← here; later ← rest; ok (first ++ later))
      else rest

  unfoldable pub produce_transfers :
      SubsetFields → String → String → LogFormat → Outcome SubsetFields
  unfolding set_transfers
  produce_transfers se transfer_type skip_addr logf = do
    evts ← event_transfers skip_addr logf.events
    ok (set_transfers se transfer_type evts)
