-- ===== src/Api/Events/Counts.antt =====
-- How often an id stands among the events, and among those of the logs.
use terra_worker.Prelude.{
  ℕ, suc, ◌+◌, ◌<◌, ◌≤◌, ◌≡◌, ◌≢◌, refl, ap, ◌∙◌, inl, inr, String, true, false, List, [], ◌∷◌,
  ◌++◌, arith, length, Bool-cases, ◌==◌, str_eq, eq_iff, eq_refl, ◌==◌, if◌then◌else◌,
}
use terra_worker.Go.Text.{format_uint}
use terra_worker.Go.Text.Decimal.{format_uint-injective}
use terra_worker.Structs.{TransactionEvent}
use terra_worker.Api.Types.{LogFormat, whole}
use terra_worker.Api.Events.{format_index, log_event, event_from_logs, is_present, log_events}

-- how many of the events have the id
unfoldable pub times : String → List TransactionEvent → ℕ
times id [] = 0
times id (tev ∷ tevs) = if str_eq tev.id id then suc (times id tevs) else times id tevs

pub times-append :
    (id : String) (xs ys : List TransactionEvent) → times id (xs ++ ys) ≡ times id xs + times id ys
unfolding times
times-append id [] ys = omega arith
times-append id (x ∷ xs) ys = ground (arith, times-append id xs ys)

pub is_present-times :
    (id : String) (xs : List TransactionEvent) → is_present xs id ≡ false → times id xs ≡ 0
unfolding times is_present
is_present-times id [] h = refl
is_present-times id (x ∷ xs) h = ground (arith, is_present-times id xs)

pub times-is_present :
    (id : String) (xs : List TransactionEvent) → is_present xs id ≡ true → 0 < times id xs
unfolding times is_present
times-is_present id [] h = cc
times-is_present id (x ∷ xs) h = ground (arith, times-is_present id xs)

-- one log for each message, in order, from an index on
abbrev pub AreInOrder : ℕ → List LogFormat → Type 0
AreInOrder i [] = Unit
AreInOrder i (l ∷ ls) = (l.msg_index ≡ whole i) × AreInOrder (suc i) ls

pub str_eq-format_uint : (m n : ℕ) → m ≢ n → str_eq (format_uint m) (format_uint n) ≡ false
str_eq-format_uint m n h = elim (Bool-cases (str_eq (format_uint m) (format_uint n))) [
  | inl same ↦ absurd (h (format_uint-injective m n ((eq_iff _ _).0 same)))
  | inr other ↦ other
]

id-log_event : (l : LogFormat) → (log_event l).id ≡ format_index l.msg_index
unfolding log_event event_from_logs
id-log_event l = ground arith

format_index-whole : (i : ℕ) → format_index (whole i) ≡ format_uint i
unfolding format_index
format_index-whole i = refl

id-of : (l : LogFormat) (i : ℕ) → l.msg_index ≡ whole i → (log_event l).id ≡ format_uint i
id-of l i h = id-log_event l ∙ ap format_index h ∙ format_index-whole i

-- the logs before an index have no event of its id
times-log_events_before :
    (present : List TransactionEvent) (ls : List LogFormat) (i k : ℕ)
    → AreInOrder i ls
    → k < i
    → times (format_uint k) (log_events present ls) ≡ 0
unfolding times log_events
times-log_events_before present [] i k h lt = refl
times-log_events_before present (l ∷ ls) i k (hl, hs) lt =
    let rest = times-log_events_before present ls (suc i) k hs (omega arith) in
    let other = str_eq-format_uint i k (omega arith) in
    elim (Bool-cases (is_present present (format_index l.msg_index))) [
      | inl here ↦ rw here rest
      | inr there ↦ rw (there, id-of l i hl, other) rest
    ]

pub times-log_events :
    (present : List TransactionEvent) (ls : List LogFormat) (i k : ℕ)
    → AreInOrder i ls
    → i ≤ k
    → k < i + length ls
    → times (format_uint k) (log_events present ls)
      ≡ (if is_present present (format_uint k) then 0 else 1)
unfolding times log_events
times-log_events present [] i k h low high = absurd (omega arith)
times-log_events present (l ∷ ls) i k (hl, hs) low high = elim (Bool-cases (i == k)) [
  | inl same ↦
      let index : format_index l.msg_index ≡ format_uint k =
        ap format_index hl ∙ format_index-whole i ∙ ap format_uint (ground arith) in
      let own : (log_event l).id ≡ format_uint k = id-log_event l ∙ index in
      let later = times-log_events_before present ls (suc i) k hs (ground arith) in
      elim (Bool-cases (is_present present (format_uint k))) [
        | inl here ↦ rw (index, here) later
        | inr there ↦ rw (index, there, own, eq_refl (format_uint k), later) refl
      ]
  | inr other ↦
      let later = times-log_events present ls (suc i) k hs (ground arith) (ground arith) in
      let apart = str_eq-format_uint i k (ground arith) in
      elim (Bool-cases (is_present present (format_index l.msg_index))) [
        | inl here ↦ rw here later
        | inr there ↦ rw (there, id-of l i hl, apart) later
      ]
]
