-- ===== src/Mapper/Bank/Coins.antt =====
-- What produceTransfers reads from a log whose amounts were printed from coins.
use Prim.Native.String.{◌++◌ as append}
use text.Mathlib.TextLemmas.{nil-append, cons-append}
use Prim.Native.Nat.add
use native.Mathlib.Nat.{add-zero}
use terra_worker.Prelude.{
  ℕ, zero, suc, ◌+◌, ◌<◌, ◌≡◌, ◌≢◌, refl, String, false, Option, none, some, List, [], ◌∷◌, ◌++◌,
  map, ◌≤◌, arith, ◌||◌, str_eq, eq_iff, if◌then◌else◌, ltb, length, get_elem?, All, Bool-cases,
  inl, inr,
}
use terra_worker.Prelude.Int.{pos}
use terra_worker.Go.Outcome.{ok, ok_of_bind}
use terra_worker.Go.Text.{split, format_uint}
use terra_worker.Go.Text.Decimal.{format_uint-cons}
use terra_worker.Go.Text.Parts.{AllChars, Lacks, join, split-join}
use terra_worker.Structs.{TransactionAmount, EventTransfer, SubsetFields, account}
use terra_worker.Api.Types.{TxEvents, TxEventsAttributes, LogFormat}
use terra_worker.External.{External}
use terra_worker.Mapper.Bank.{
  sliced_coin, amount_of, parse_amount, parse_amounts, indexed, index_amount, recipient_transfers,
  attribute_transfers, event_transfers, set_transfers, produce_transfers,
}
use terra_worker.Mapper.Bank.Currency.{
  IsUnit, AllChars-map, AllChars-format_uint, digit_ne, digit_number, get_currency-append,
  get_coin-format_uint,
}

-- a coin as the chain prints it: the number in front of the currency
pub record PrintedCoin : Type 0 where
  pub number : ℕ
  pub denom : String

abbrev pub print : PrintedCoin → String
print c = append (format_uint c.number) c.denom

abbrev pub IsDenom : String → Type 0
IsDenom s = IsUnit s × Lacks b',' s

abbrev pub amount : PrintedCoin → TransactionAmount
amount c = record { text = print c; currency = c.denom; numeric = some (pos c.number); exp = 0 }

-- a transfer of one coin or more
pub record PrintedTransfer : Type 0 where
  pub to : String
  pub coin : PrintedCoin
  pub coins : List PrintedCoin

abbrev pub print_coins : PrintedTransfer → String
print_coins t = join "," (map print (t.coin ∷ t.coins))

abbrev pub IsPrintable : PrintedTransfer → Type 0
IsPrintable t = All (λ (c : PrintedCoin). IsDenom c.denom) (t.coin ∷ t.coins)

-- the transfers to others than the skipped address
pub transfers_of : String → List PrintedTransfer → List EventTransfer
transfers_of skip_addr [] = []
transfers_of skip_addr (t ∷ ts) =
    if str_eq t.to skip_addr
    then transfers_of skip_addr ts
    else record { account = account t.to; amounts = map amount (t.coin ∷ t.coins) }
      ∷ transfers_of skip_addr ts

transfers_of-append :
    (skip_addr : String) (ts us : List PrintedTransfer)
    → transfers_of skip_addr (ts ++ us) ≡ transfers_of skip_addr ts ++ transfers_of skip_addr us
unfolding transfers_of
transfers_of-append skip_addr [] us = refl
transfers_of-append skip_addr (t ∷ ts) us = ground (arith, transfers_of-append skip_addr ts us)

AllChars-append :
    (P : ℕ → Type 0) (s t : String) → AllChars P s → AllChars P t → AllChars P (append s t)
AllChars-append P String.[] t hs ht = rw nil-append ht
AllChars-append P (String.◌∷◌ c s) t (hc, hs) ht = rw cons-append (hc, AllChars-append P s t hs ht)

print-Lacks : (c : PrintedCoin) → IsDenom c.denom → Lacks b',' (print c)
print-Lacks c (_, h) =
    AllChars-append (λ x. x ≢ b',') (format_uint c.number) c.denom
      (AllChars-map _ _ (digit_ne b',' (omega arith)) _ (AllChars-format_uint c.number)) h

format_uint-ne-nil : (n : ℕ) → format_uint n ≢ ""
format_uint-ne-nil n h = let (c, s, e) = format_uint-cons n in cc

lt_of_get_elem? {ℓ} :
    {A : Type ℓ} (xs : List A) (i : ℕ) {a : A} → get_elem? xs i ≡ some a → i < length xs
lt_of_get_elem? [] i e = cc
lt_of_get_elem? (x ∷ xs) zero e = omega arith
lt_of_get_elem? (x ∷ xs) (suc i) e = omega (arith, lt_of_get_elem? xs i e)

le→not-ltb : (a b : ℕ) → b < a → ltb a b ≡ false
le→not-ltb a b h = ground arith

index_amount-some :
    (amounts : List String) (i : ℕ) {a : String}
    → get_elem? amounts i ≡ some a
    → index_amount amounts i ≡ ok a
unfolding index_amount
index_amount-some amounts i e = rw e

lt_of_indexed :
    (amounts : List String) (i : ℕ) (o : Option String) {a : String}
    → get_elem? amounts i ≡ o
    → indexed o ≡ ok a
    → i < length amounts
unfolding indexed
lt_of_indexed amounts i none h e = cc
lt_of_indexed amounts i (some b) h e = lt_of_get_elem? amounts i h

lt_of_index_amount :
    (amounts : List String) (i : ℕ) {a : String}
    → index_amount amounts i ≡ ok a
    → i < length amounts
unfolding index_amount
lt_of_index_amount amounts i e = lt_of_indexed amounts i (get_elem? amounts i) refl e

module _ (ext : External) where
  parse_amount-print :
      (c : PrintedCoin) → IsDenom c.denom → parse_amount ext (print c) ≡ ok (amount c)
  unfolding parse_amount sliced_coin amount_of
  parse_amount-print c (h, _) = rw (
    get_currency-append (format_uint c.number) c.denom (format_uint-ne-nil c.number)
        (AllChars-map _ _ digit_number _ (AllChars-format_uint c.number)) h,
    get_coin-format_uint,
  )

  parse_amounts-print :
      (cs : List PrintedCoin)
      → All (λ (c : PrintedCoin). IsDenom c.denom) cs
      → parse_amounts ext (map print cs) ≡ ok (map amount cs)
  unfolding parse_amounts
  parse_amounts-print [] h = refl
  parse_amounts-print (c ∷ cs) (hc, hs) = rw (parse_amount-print c hc, parse_amounts-print cs hs)

  map-Lacks :
      (cs : List PrintedCoin)
      → All (λ (c : PrintedCoin). IsDenom c.denom) cs
      → All (Lacks b',') (map print cs)
  map-Lacks [] h = tt
  map-Lacks (c ∷ cs) (hc, hs) = (print-Lacks c hc, map-Lacks cs hs)

  parse-print_coins :
      (t : PrintedTransfer)
      → IsPrintable t
      → parse_amounts ext (split (print_coins t) b',') ≡ ok (map amount (t.coin ∷ t.coins))
  parse-print_coins t h =
      rw (split-join "," (print t.coin) (map print t.coins) (map-Lacks (t.coin ∷ t.coins) h))
        (parse_amounts-print (t.coin ∷ t.coins) h)

  recipient_transfers-printed :
      (skip_addr : String) (amounts : List String) (i : ℕ) (ts : List PrintedTransfer)
      → All IsPrintable ts
      → ((j : ℕ) → get_elem? amounts (i + j) ≡ get_elem? (map print_coins ts) j)
      → recipient_transfers ext skip_addr amounts i (map (λ (t : PrintedTransfer). t.to) ts)
        ≡ ok (transfers_of skip_addr ts)
  unfolding recipient_transfers transfers_of
  recipient_transfers-printed skip_addr amounts i [] h at = refl
  recipient_transfers-printed skip_addr amounts i (t ∷ ts) (ht, hs) at =
      let here : get_elem? amounts i ≡ some (print_coins t) = rw add-zero at (at 0) in
      let shift : (j : ℕ) → suc i + j ≡ i + suc j = λ j. omega arith in
      let later =
        recipient_transfers-printed skip_addr amounts (suc i) ts hs
          (λ j. rw (shift j) (at (suc j))) in
      let bound = lt_of_get_elem? amounts i here in
      elim (Bool-cases (str_eq t.to skip_addr)) [
        | inl skip ↦ rw (skip, later)
        | inr keep ↦ rw (
          keep,
          le→not-ltb _ _ bound,
          index_amount-some amounts i here,
          parse-print_coins t ht,
          later,
        )
      ]

  attribute_transfers-printed :
      (skip_addr : String) (attr : TxEventsAttributes) (ts : List PrintedTransfer)
      → All IsPrintable ts
      → attr.recipient ≡ map (λ (t : PrintedTransfer). t.to) ts
      → attr.amount ≡ map print_coins ts
      → attribute_transfers ext skip_addr (some attr) ≡ ok (transfers_of skip_addr ts)
  unfolding attribute_transfers
  attribute_transfers-printed skip_addr attr ts h to amounts =
      rw to (recipient_transfers-printed skip_addr attr.amount 0 ts h (λ j. rw (amounts, add.zero)))

-- The events of a log that tells these transfers: each transfer event has the recipients and the
-- printed amounts of its part of them, and the other events are of other types.
pub data Tells : List TxEvents → List PrintedTransfer → Type 0 where
  nothing : Tells [] []
  skipped :
      (ev : TxEvents) {evs : List TxEvents} {ts : List PrintedTransfer}
      → ev.type ≢ "transfer"
      → Tells evs ts
      → Tells (ev ∷ evs) ts
  told :
      (attr : TxEventsAttributes) (us : List PrintedTransfer) {evs : List TxEvents}
      {ts : List PrintedTransfer} {all : List PrintedTransfer}
      → All IsPrintable us
      → attr.recipient ≡ map (λ (t : PrintedTransfer). t.to) us
      → attr.amount ≡ map print_coins us
      → all ≡ us ++ ts
      → Tells evs ts
      → Tells (record { type = "transfer"; attributes = some attr } ∷ evs) all

module _ (ext : External) where
  event_transfers-Tells :
      (skip_addr : String) {evs : List TxEvents} {ts : List PrintedTransfer}
      → Tells evs ts
      → event_transfers ext skip_addr evs ≡ ok (transfers_of skip_addr ts)
  unfolding event_transfers
  event_transfers-Tells skip_addr nothing = unfold transfers_of in refl
  event_transfers-Tells skip_addr (skipped ev h rest) =
      ground (arith, eq_iff ev.type "transfer", event_transfers-Tells skip_addr rest)
  event_transfers-Tells skip_addr (told attr us {ts = ts} h to amounts e rest) = rw (
    attribute_transfers-printed ext skip_addr attr us h to amounts,
    event_transfers-Tells skip_addr rest,
    e,
    transfers_of-append,
  )

  -- Where a log tells transfers of coins, printed as number and currency with commas between them,
  -- produceTransfers succeeds and records exactly those to others than the skipped address, in
  -- order, each with the number, currency and text of each of its coins.
  pub produce_transfers-Tells :
      (se : SubsetFields) (transfer_type skip_addr : String) (logf : LogFormat)
      (ts : List PrintedTransfer)
      → Tells logf.events ts
      → produce_transfers ext se transfer_type skip_addr logf
        ≡ ok (set_transfers se transfer_type (transfers_of skip_addr ts))
  unfolding produce_transfers
  produce_transfers-Tells se transfer_type skip_addr logf ts h =
      rw (event_transfers-Tells skip_addr h)

  recipient_transfers_short :
      (skip_addr : String) (amounts : List String) (i : ℕ) (recips : List String)
      → All (λ (r : String). r ≢ skip_addr) recips
      → length amounts < i + length recips
      → i ≤ length amounts
      → (ts : List EventTransfer) → recipient_transfers ext skip_addr amounts i recips ≢ ok ts
  unfolding recipient_transfers
  recipient_transfers_short skip_addr amounts i [] others short le ts e = absurd (omega arith)
  recipient_transfers_short skip_addr amounts i (r ∷ rs) (hr, others) short le ts e =
      let reached : str_eq r skip_addr || ltb (length amounts) i ≡ false =
        ground (arith, eq_iff r skip_addr) in
      let (text, indexed_at, e₁) = ok_of_bind (index_amount amounts i) _ (rw reached at e) in
      let (amts, _, e₂) = ok_of_bind (parse_amounts ext (split text b',')) _ e₁ in
      let (later, e₃, _) = ok_of_bind (recipient_transfers ext skip_addr amounts (suc i) rs) _ e₂ in
      let bound = lt_of_index_amount amounts i indexed_at in
      recipient_transfers_short skip_addr amounts (suc i) rs others (omega arith) (omega arith)
        later e₃

  -- A first transfer event that has more recipients than amounts, none of them skipped, makes
  -- produceTransfers fail or panic: the test `len(attr.Amount) < i` lets the index one past the
  -- end.
  pub produce_transfers_short :
      (se : SubsetFields) (transfer_type skip_addr : String) (logf : LogFormat)
      (attr : TxEventsAttributes) (evs : List TxEvents)
      → logf.events ≡ record { type = "transfer"; attributes = some attr } ∷ evs
      → All (λ (r : String). r ≢ skip_addr) attr.recipient
      → length attr.amount < length attr.recipient
      → (se' : SubsetFields) → produce_transfers ext se transfer_type skip_addr logf ≢ ok se'
  unfolding produce_transfers event_transfers attribute_transfers
  produce_transfers_short se transfer_type skip_addr logf attr evs events others short se' e =
      let (all, e₁, _) = ok_of_bind (event_transfers ext skip_addr logf.events) _ e in
      let (first, e₂, _) =
        ok_of_bind (recipient_transfers ext skip_addr attr.amount 0 attr.recipient) _
          (rw events at e₁) in
      recipient_transfers_short skip_addr attr.amount 0 attr.recipient others (omega arith)
        (omega arith) first e₂
