-- ===== src/Bgp/Errors/Outcomes.antt =====
-- packets/routing/rtengine/plugins/bgp/errors.py: what a malformed attribute costs (RFC 7606).
use packets.Base.{
  ℕ, ltb, eqb, Bool, false, ◌||◌, ◌&&◌, Option, none, some, List, [], ◌∷◌, if◌then◌else◌,
}

-- An attribute type code, or `ATTR_LIST`.
pub data Attr : Type 0 where
  attr_list : Attr
  attr : ℕ → Attr

-- The `REASON_*` constants.
pub data Reason : Type 0 where
  attribute_flags attribute_length attribute_value duplicate_attribute : Reason
  missing_attribute unparseable unnegotiated_family : Reason

-- The `OUTCOME_*` constants.
pub data Outcome : Type 0 where
  ok attribute_discard treat_as_withdraw session_reset : Outcome

-- `_SEVERITY`
abbrev pub severity : Outcome → ℕ
severity ok = 0
severity attribute_discard = 1
severity treat_as_withdraw = 2
severity session_reset = 3

-- Membership in a set of attribute codes.
abbrev pub among : ℕ → List ℕ → Bool
among n [] = false
among n (m ∷ ms) = eqb n m || among n ms

abbrev pub nlri_attrs : List ℕ
nlri_attrs = 14 ∷ 15 ∷ []

abbrev pub ibgp_only_attrs : List ℕ
ibgp_only_attrs = 9 ∷ 10 ∷ []

-- `_MANDATORY_EBGP`, which `_MANDATORY_IBGP` and `_MANDATORY_ANY` equal
abbrev pub mandatory_any : List ℕ
mandatory_any = 1 ∷ 2 ∷ 3 ∷ []

abbrev withdraw_rows : List ℕ
withdraw_rows = 1 ∷ 2 ∷ 3 ∷ 4 ∷ 5 ∷ 8 ∷ 9 ∷ 10 ∷ 16 ∷ 32 ∷ []

abbrev discard_rows : List ℕ
discard_rows = 6 ∷ 7 ∷ 17 ∷ 18 ∷ []

abbrev reset_rows : List ℕ
reset_rows = 14 ∷ 15 ∷ []

-- `ATTRIBUTE_MATRIX`, without its row for the attribute list
unfoldable pub attribute_matrix : ℕ → Option Outcome
attribute_matrix code =
    if among code withdraw_rows
    then some treat_as_withdraw
    else if among code discard_rows
    then some attribute_discard
    else if among code reset_rows
    then some session_reset
    else none

abbrev unknown_outcome : Bool → Outcome
unknown_outcome optional = if optional then attribute_discard else session_reset

abbrev table_outcome : Option Outcome → Bool → Outcome
table_outcome (some outcome) optional = outcome
table_outcome none optional = unknown_outcome optional

-- The tests of `attribute_outcome` after the one for iBGP-only attributes
abbrev pub outcome_by_reason : ℕ → Reason → Bool → Outcome
outcome_by_reason code duplicate_attribute optional =
    if among code nlri_attrs then session_reset else treat_as_withdraw
outcome_by_reason code missing_attribute optional =
    if among code mandatory_any then treat_as_withdraw else ok
outcome_by_reason code _ optional = table_outcome (attribute_matrix code) optional

abbrev outcome_of_code : ℕ → Reason → Bool → Bool → Outcome
outcome_of_code code unnegotiated_family from_ebgp optional = attribute_discard
outcome_of_code code reason from_ebgp optional =
    if from_ebgp && among code ibgp_only_attrs
    then attribute_discard
    else outcome_by_reason code reason optional

-- `attribute_outcome`; its argument `transitive` does not change the outcome.
unfoldable pub attribute_outcome : Attr → Reason → Bool → Bool → Outcome
unfolding attribute_matrix
attribute_outcome attr_list reason from_ebgp optional = session_reset
attribute_outcome (attr code) reason from_ebgp optional =
    outcome_of_code code reason from_ebgp optional

-- One turn of the loop of `worst_outcome`; the variable `rank` is the severity of `worst`.
abbrev pub worse : Outcome → Outcome → Outcome
worse worst outcome = if ltb (severity worst) (severity outcome) then outcome else worst

unfoldable pub worst_from : Outcome → List Outcome → Outcome
worst_from worst [] = worst
worst_from worst (outcome ∷ rest) = worst_from (worse worst outcome) rest

-- `worst_outcome`
unfoldable pub worst_outcome : List Outcome → Outcome
unfolding worst_from
worst_outcome outcomes = worst_from ok outcomes

-- `mandatory_attributes`
unfoldable pub mandatory_attributes : Bool → List ℕ
mandatory_attributes is_ebgp = mandatory_any
