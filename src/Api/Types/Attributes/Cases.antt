-- ===== src/Api/Types/Attributes/Cases.antt =====
-- The field that each key of the switch belongs to.
use mathlib.Core.Bool.{false≢true}
use terra_worker.Prelude.{
  String, true, false, inl, inr, Option, none, some, List, [], ◌∷◌, ◌++◌, ◌≡◌, ◌≢◌, refl, sym, ap,
  ◌∙◌, str_eq, eq_iff, eq_refl, append_assoc, append-nil, arith, Bool-cases, All, if◌then◌else◌,
}
use terra_worker.Go.Map.{GoMap, get, get-put}
use terra_worker.Api.Types.{TxEventsAttributes}
use terra_worker.Api.Types.Attributes.{
  KvHolder, or_empty, append_at, Case, validators, senders, recipients, feeders, voters, modules,
  actions, completion_times, amounts, by_default, cases, find_case, take_case, take_pair,
}

-- the values under a key, in order
unfoldable pub values : String → List KvHolder → List String
values k [] = []
values k (p ∷ ps) = if str_eq p.key k then p.value ∷ values k ps else values k ps

abbrev pub take_pairs : TxEventsAttributes → List KvHolder → TxEventsAttributes
take_pairs lea [] = lea
take_pairs lea (p ∷ ps) = take_pairs (take_pair lea p) ps

-- the reader takes the values under the key, and appends them
abbrev pub Appends : String → (TxEventsAttributes → List String) → Type 0
Appends j f =
    (lea : TxEventsAttributes) (p : KvHolder) → f (take_pair lea p) ≡ f lea ++ values j (p ∷ [])

values-cons :
    (j : String) (p : KvHolder) (ps : List KvHolder)
    → values j (p ∷ ps) ≡ values j (p ∷ []) ++ values j ps
unfolding values
values-cons j p ps = ground arith

pub Appends-take_pairs :
    (j : String) (f : TxEventsAttributes → List String)
    → Appends j f
    → (ps : List KvHolder) (lea : TxEventsAttributes) → f (take_pairs lea ps) ≡ f lea ++ values j ps
unfolding values
Appends-take_pairs j f step [] lea = sym (append-nil (f lea))
Appends-take_pairs j f step (p ∷ ps) lea =
    Appends-take_pairs j f step ps (take_pair lea p)
    ∙ ap (λ l. l ++ values j ps) (step lea p)
    ∙ append_assoc (f lea) (values j (p ∷ [])) (values j ps)
    ∙ ap (λ l. f lea ++ l) (sym (values-cons j p ps))

-- A step lemma is proved at the key itself, and at every other.
by_key :
    (j : String) (f : TxEventsAttributes → List String)
    → ((lea : TxEventsAttributes) (v : String)
        → f (take_case lea (find_case j cases) j v) ≡ f lea ++ v ∷ [])
    → ((lea : TxEventsAttributes) (k v : String)
        → str_eq k j ≡ false
        → f (take_case lea (find_case k cases) k v) ≡ f lea)
    → Appends j f
unfolding values take_pair
by_key j f same other lea p = elim (Bool-cases (str_eq p.key j)) [
  | inl e ↦ rw e (
      ap (λ k. f (take_case lea (find_case k cases) k p.value)) ((eq_iff p.key j).0 e)
      ∙ same lea p.value)
  | inr e ↦ rw e (other lea p.key p.value e ∙ sym (append-nil (f lea)))
]

pub find_case-default :
    (j : String) (cs : List (String × Case))
    → All (λ e. str_eq j e.0 ≡ false) cs
    → find_case j cs ≡ by_default
unfolding find_case
find_case-default j [] h = refl
find_case-default j ((i, d) ∷ cs) (h, hs) = rw h (find_case-default j cs hs)

-- the key of a case that has one key
abbrev key_of : Case → Option String
key_of validators = none
key_of senders = some "sender"
key_of recipients = some "recipient"
key_of feeders = some "feeder"
key_of voters = some "voter"
key_of modules = some "module"
key_of actions = some "action"
key_of completion_times = some "completion_time"
key_of amounts = some "amount"
key_of by_default = none

abbrev IsOwn : String × Case → Type 0
IsOwn e = (j : String) → key_of e.1 ≡ some j → e.0 ≡ j

cases-IsOwn : All IsOwn cases
cases-IsOwn = (
  (λ j h. cc),
  (
    (λ j h. cc),
    (
      (λ j h. cc),
      (
        (λ j h. cc),
        (
          (λ j h. cc),
          (
            (λ j h. cc),
            ((λ j h. cc), ((λ j h. cc), ((λ j h. cc), ((λ j h. cc), ((λ j h. cc), tt))))),
          ),
        ),
      ),
    ),
  ),
)

find_case-own :
    (k j : String) (cs : List (String × Case))
    → All IsOwn cs
    → key_of (find_case k cs) ≡ some j
    → str_eq k j ≡ true
unfolding find_case
find_case-own k j [] own h = cc
find_case-own k j ((i, d) ∷ cs) (own, owns) h = elim (Bool-cases (str_eq k i)) [
  | inl at ↦ let found : key_of d ≡ some j = rw at at h in ap (str_eq k) (sym (own j found)) ∙ at
  | inr not_at ↦ find_case-own k j cs owns (rw not_at at h)
]

-- a field that one case appends to, and no other changes
by_case :
    (j : String) (d : Case) (f : TxEventsAttributes → List String)
    → key_of d ≡ some j
    → find_case j cases ≡ d
    → ((lea : TxEventsAttributes) (k v : String) → f (take_case lea d k v) ≡ f lea ++ v ∷ [])
    → ((lea : TxEventsAttributes) (c : Case) (k v : String)
        → c ≢ d
        → f (take_case lea c k v) ≡ f lea)
    → Appends j f
by_case j d f own found appended kept =
    by_key j f (λ lea v. rw found (appended lea j v))
      λ lea k v other.
        kept lea (find_case k cases) k v
          (λ e. false≢true (sym other ∙ find_case-own k j cases cases-IsOwn (ap key_of e ∙ own)))

fields_kept :
    (lea : TxEventsAttributes) (c : Case) (k v : String)
    → (c ≢ senders → (take_case lea c k v).sender ≡ lea.sender)
      × (c ≢ recipients → (take_case lea c k v).recipient ≡ lea.recipient)
      × (c ≢ amounts → (take_case lea c k v).amount ≡ lea.amount)
      × (c ≢ feeders → (take_case lea c k v).feeder ≡ lea.feeder)
      × (c ≢ voters → (take_case lea c k v).voter ≡ lea.voter)
unfolding take_case
fields_kept lea validators k v = ((λ h. refl), (λ h. refl), (λ h. refl), (λ h. refl), (λ h. refl))
fields_kept lea senders k v =
    ((λ h. absurd (h refl)), (λ h. refl), (λ h. refl), (λ h. refl), (λ h. refl))
fields_kept lea recipients k v =
    ((λ h. refl), (λ h. absurd (h refl)), (λ h. refl), (λ h. refl), (λ h. refl))
fields_kept lea feeders k v =
    ((λ h. refl), (λ h. refl), (λ h. refl), (λ h. absurd (h refl)), (λ h. refl))
fields_kept lea voters k v =
    ((λ h. refl), (λ h. refl), (λ h. refl), (λ h. refl), (λ h. absurd (h refl)))
fields_kept lea modules k v = ((λ h. refl), (λ h. refl), (λ h. refl), (λ h. refl), (λ h. refl))
fields_kept lea actions k v = ((λ h. refl), (λ h. refl), (λ h. refl), (λ h. refl), (λ h. refl))
fields_kept lea completion_times k v =
    ((λ h. refl), (λ h. refl), (λ h. refl), (λ h. refl), (λ h. refl))
fields_kept lea amounts k v =
    ((λ h. refl), (λ h. refl), (λ h. absurd (h refl)), (λ h. refl), (λ h. refl))
fields_kept lea by_default k v = ((λ h. refl), (λ h. refl), (λ h. refl), (λ h. refl), (λ h. refl))

pub sender-Appends : Appends "sender" (λ lea. lea.sender)
unfolding find_case take_case
sender-Appends =
    by_case "sender" senders _ refl refl (λ lea k v. refl) (λ lea c k v. (fields_kept lea c k v).0)

pub recipient-Appends : Appends "recipient" (λ lea. lea.recipient)
unfolding find_case take_case
recipient-Appends =
    by_case "recipient" recipients _ refl refl (λ lea k v. refl)
      (λ lea c k v. (fields_kept lea c k v).1)

pub amount-Appends : Appends "amount" (λ lea. lea.amount)
unfolding find_case take_case
amount-Appends =
    by_case "amount" amounts _ refl refl (λ lea k v. refl) (λ lea c k v. (fields_kept lea c k v).2)

pub feeder-Appends : Appends "feeder" (λ lea. lea.feeder)
unfolding find_case take_case
feeder-Appends =
    by_case "feeder" feeders _ refl refl (λ lea k v. refl) (λ lea c k v. (fields_kept lea c k v).3)

pub voter-Appends : Appends "voter" (λ lea. lea.voter)
unfolding find_case take_case
voter-Appends =
    by_case "voter" voters _ refl refl (λ lea k v. refl) (λ lea c k v. (fields_kept lea c k v).4)

append_at_self :
    (m : GoMap (List String)) (k v : String)
    → or_empty (get (append_at m k v) k) ≡ or_empty (get m k) ++ v ∷ []
unfolding append_at or_empty
append_at_self m k v = rw (get-put, eq_refl k) refl

append_at-ne :
    (m : GoMap (List String)) (k j v : String)
    → str_eq k j ≡ false
    → or_empty (get (append_at m k v) j) ≡ or_empty (get m j)
unfolding append_at or_empty
append_at-ne m k j v h = rw (get-put, h) refl

validator_kept :
    (lea : TxEventsAttributes) (c : Case) (j k v : String)
    → str_eq k j ≡ false
    → or_empty (get (take_case lea c k v).validator j) ≡ or_empty (get lea.validator j)
unfolding take_case
validator_kept lea validators j k v h = append_at-ne lea.validator k j v h
validator_kept lea senders j k v h = refl
validator_kept lea recipients j k v h = refl
validator_kept lea feeders j k v h = refl
validator_kept lea voters j k v h = refl
validator_kept lea modules j k v h = refl
validator_kept lea actions j k v h = refl
validator_kept lea completion_times j k v h = refl
validator_kept lea amounts j k v h = refl
validator_kept lea by_default j k v h = refl

others_kept :
    (lea : TxEventsAttributes) (c : Case) (j k v : String)
    → str_eq k j ≡ false
    → or_empty (get (take_case lea c k v).others j) ≡ or_empty (get lea.others j)
unfolding take_case
others_kept lea validators j k v h = refl
others_kept lea senders j k v h = refl
others_kept lea recipients j k v h = refl
others_kept lea feeders j k v h = refl
others_kept lea voters j k v h = refl
others_kept lea modules j k v h = refl
others_kept lea actions j k v h = refl
others_kept lea completion_times j k v h = refl
others_kept lea amounts j k v h = refl
others_kept lea by_default j k v h = append_at-ne lea.others k j v h

pub validator-Appends :
    (j : String)
    → find_case j cases ≡ validators
    → Appends j (λ lea. or_empty (get lea.validator j))
unfolding take_case
validator-Appends j known =
    by_key j _ (λ lea v. rw known (append_at_self lea.validator j v))
      λ lea k v h. validator_kept lea (find_case k cases) j k v h

pub others-Appends :
    (j : String) → find_case j cases ≡ by_default → Appends j (λ lea. or_empty (get lea.others j))
unfolding take_case
others-Appends j unknown =
    by_key j _ (λ lea v. rw unknown (append_at_self lea.others j v))
      λ lea k v h. others_kept lea (find_case k cases) j k v h
