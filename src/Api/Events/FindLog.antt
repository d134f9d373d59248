-- ===== src/Api/Events/FindLog.antt =====
-- The log that `findLog` finds for a message.
use terra_worker.Prelude.{
  ℕ, zero, suc, ◌<◌, ◌≤◌, ◌≡◌, refl, ap, inl, inr, true, false, some, List, [], ◌∷◌, arith, length,
  get_elem?, Bool-cases, leb,
}
use terra_worker.Api.Types.{LogFormat, MsgIndex, whole, other, no_log}
use terra_worker.Api.Events.{is_index, search_log, find_log}

-- the log stands somewhere in the list
data IsIn (l : LogFormat) : List LogFormat → Type 0 where
  first : {ls : List LogFormat} → IsIn l (l ∷ ls)
  later : {k : LogFormat} {ls : List LogFormat} → IsIn l ls → IsIn l (k ∷ ls)

is_index-eq : (i : MsgIndex) (index : ℕ) → is_index i index ≡ true → i ≡ whole index
unfolding is_index
is_index-eq (whole n) index h = ap whole (ground arith)
is_index-eq (other text) index h = cc

is_index_self : (i : MsgIndex) (index : ℕ) → i ≡ whole index → is_index i index ≡ true
unfolding is_index
is_index_self i index h = rw h (ground arith)

-- a log of that index that stands in the list
abbrev IsFound : List LogFormat → ℕ → LogFormat → Type 0
IsFound lf index l = IsIn l lf × (l.msg_index ≡ whole index)

search_log-IsFound :
    (lf : List LogFormat) (index : ℕ) (l : LogFormat)
    → IsIn l lf
    → l.msg_index ≡ whole index
    → IsFound lf index (search_log lf index)
unfolding search_log
search_log-IsFound [] index l h e = elim h [ ]
search_log-IsFound (k ∷ ls) index l first e = rw (is_index_self l.msg_index index e) (first, e)
search_log-IsFound (k ∷ ls) index l (later h) e =
    let (m, f) = search_log-IsFound ls index l h e in
    elim (Bool-cases (is_index k.msg_index index)) [
      | inl here ↦ rw here (first, is_index-eq k.msg_index index here)
      | inr there ↦ rw there (later m, f)
    ]

get_elem?-IsIn :
    (lf : List LogFormat) (i : ℕ)
    → i < length lf
    → (l : LogFormat) × (get_elem? lf i ≡ some l) × IsIn l lf
get_elem?-IsIn [] i h = elim h [ ]
get_elem?-IsIn (l ∷ ls) zero h = (l, refl, first)
get_elem?-IsIn (l ∷ ls) (suc i) h =
    let (k, e, m) = get_elem?-IsIn ls i (omega arith) in (k, e, later m)

-- Where some log of the list has the index of the message, and the list is longer than that index,
-- findLog finds a log of the list with that index.
find_log-IsFound :
    (lf : List LogFormat) (index : ℕ) (l : LogFormat)
    → index < length lf
    → IsIn l lf
    → l.msg_index ≡ whole index
    → IsFound lf index (find_log lf index)
unfolding find_log
find_log-IsFound lf index l bound h e =
    let (k, at, m) = get_elem?-IsIn lf index bound in
    let long : leb (length lf) index ≡ false = ground arith in
    elim (Bool-cases (is_index k.msg_index index)) [
      | inl here ↦ rw (long, at, here) (m, is_index-eq k.msg_index index here)
      | inr there ↦ rw (long, at, there) (search_log-IsFound lf index l h e)
    ]

-- A list that is not longer than the index of the message is not searched: the empty log is the
-- result, also where a log of that index stands in the list.
find_log_short : (lf : List LogFormat) (index : ℕ) → length lf ≤ index → find_log lf index ≡ no_log
unfolding find_log
find_log_short lf index h = ground arith
