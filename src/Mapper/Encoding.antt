-- ===== src/Mapper/Encoding.antt =====
-- Idioms that the functions of api/mapper share: a type assertion with its error, an encoded address
-- with its error, and the amount of a coin.
use terra_worker.Prelude.{suc, String, Option, none, some, []}
use Prim.Native.String.{◌++◌ as append}
use terra_worker.Prelude.Int.{ℤ, pos, negsuc}
use terra_worker.Go.Outcome.{GoError, Outcome, ok, err, message, wrap}
use terra_worker.Go.Text.{format_uint}
use terra_worker.Structs.{TransactionAmount, EventTransfer, account}
use terra_worker.External.{External}
use terra_worker.Mapper.Messages.{Address, SdkInt, SdkDec, Coin}

-- if !ok { return se, errors.New(text) }
unfoldable pub asserted {ℓ} : {A : Type ℓ} → Option A → String → Outcome A
asserted none text = err (message text)
asserted (some m) text = ok m

-- if err != nil { return se, fmt.Errorf(text: %w) }
unfoldable pub checked : String × Option GoError → String → Outcome String
checked (s, none) text = ok s
checked (s, some e) text = err (wrap text e)

-- strconv.FormatInt(n, 10)
unfoldable pub format_int : ℤ → String
format_int (pos n) = format_uint n
format_int (negsuc n) = append "-" (format_uint (suc n))

-- TransactionAmount{Currency: denom, Numeric: BigInt(), Text: text}
abbrev pub amount_with_text : Coin → String → TransactionAmount
amount_with_text c text = record {
  text = text;
  currency = c.denom;
  numeric = c.amount.big_int;
  exp = 0;
}

-- the same with Text: coin.Amount.String()
abbrev pub coin_amount : Coin → TransactionAmount
coin_amount c = amount_with_text c c.amount.string

-- TransactionAmount{Text: n.String(), Numeric: n.BigInt()}
abbrev pub int_amount : SdkInt → TransactionAmount
int_amount n = record { text = n.string; currency = ""; numeric = n.big_int; exp = 0 }

-- TransactionAmount{Text: d.String(), Numeric: d.Int}
abbrev pub dec_amount : SdkDec → TransactionAmount
dec_amount d = record { text = d.string; currency = ""; numeric = d.int; exp = 0 }

-- EventTransfer{Account: Account{ID: id}}
abbrev pub bare_transfer : String → EventTransfer
bare_transfer id = record { account = account id; amounts = [] }

module _ (ext : External) where
  unfoldable pub encode_acc : Address → String × Option GoError
  encode_acc a = ext.convert_and_encode ext.bech32_prefix_acc_addr a

  unfoldable pub encode_val : Address → String × Option GoError
  encode_val a = ext.convert_and_encode ext.bech32_prefix_val_addr a
