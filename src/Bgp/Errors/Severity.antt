-- ===== src/Bgp/Errors/Severity.antt =====
-- errors.py: when a fault resets the session, and the worst of several faults.
use packets.Base.{
  ℕ, eqb, leb, ◌≤◌, Bool, true, false, ◌||◌, ◌&&◌, not, List, [], ◌∷◌, ◌≡◌, ◌⊎◌, inl, ◌↔◌, refl,
  arith, All,
}
use packets.Bgp.Errors.Outcomes.{
  Attr, attr_list, attr, Reason, attribute_flags, attribute_length, attribute_value,
  duplicate_attribute, unparseable, Outcome, ok, session_reset, severity, attribute_matrix,
  attribute_outcome, worse, worst_from, worst_outcome,
}

-- Whether the reason says that the attribute came and could not be read.
abbrev malformed : Reason → Bool
malformed attribute_flags = true
malformed attribute_length = true
malformed attribute_value = true
malformed unparseable = true
malformed _ = false

-- The attributes that hold NLRI: MP_REACH_NLRI and MP_UNREACH_NLRI.
abbrev pub holds_nlri : ℕ → Bool
holds_nlri code = eqb code 14 || eqb code 15

-- The other attributes whose faults have a remedy short of a reset: ORIGIN to CLUSTER_LIST (1 to 10),
-- EXTENDED_COMMUNITIES, AS4_PATH and AS4_AGGREGATOR (16 to 18) and LARGE_COMMUNITY (32).
abbrev pub is_recoverable : ℕ → Bool
is_recoverable code = (leb 1 code && leb code 10) || ((leb 16 code && leb code 18) || eqb code 32)

-- The faults that end a session.
abbrev pub fatal : Attr → Reason → Bool → Bool
fatal attr_list reason optional = true
fatal (attr code) duplicate_attribute optional = holds_nlri code
fatal (attr code) reason optional =
    malformed reason && (holds_nlri code || (not (is_recoverable code) && not optional))

-- A fault resets the session exactly when it is a fault of the list, a malformed or repeated attribute 14
-- or 15, or a malformed attribute that is not optional and none of 1 to 10, 14 to 18 and 32.
pub attribute_outcome-reset_iff :
    (a : Attr) (reason : Reason) (from_ebgp optional : Bool)
    → (attribute_outcome a reason from_ebgp optional ≡ session_reset)
      ↔ (fatal a reason optional ≡ true)
unfolding attribute_outcome attribute_matrix
attribute_outcome-reset_iff attr_list reason from_ebgp optional = ((λ _. refl), (λ _. refl))
attribute_outcome-reset_iff (attr code) duplicate_attribute from_ebgp optional = ground arith
attribute_outcome-reset_iff (attr code) reason from_ebgp optional = ground arith

worst_from-le :
    (o : Outcome) (os : List Outcome)
    → (severity o ≤ severity (worst_from o os))
      × All (λ p. severity p ≤ severity (worst_from o os)) os
unfolding worst_from
worst_from-le o [] = (omega arith, tt)
worst_from-le o (p ∷ os) =
    let (first, rest) = worst_from-le (worse o p) os in (ground arith, (ground arith, rest))

abbrev pub OneOf : Outcome → List Outcome → Type 0
OneOf o [] = ⊥
OneOf o (p ∷ os) = (o ≡ p) ⊎ OneOf o os

worst_from-OneOf :
    (o : Outcome) (os : List Outcome) → (worst_from o os ≡ o) ⊎ OneOf (worst_from o os) os
unfolding worst_from
worst_from-OneOf o [] = inl refl
worst_from-OneOf o (p ∷ os) = ground (arith, worst_from-OneOf (worse o p) os)

-- The outcome of an UPDATE is at least as severe as that of each of its faults, and is one of
-- theirs or no fault at all.
pub worst_outcome-le :
    (os : List Outcome)
    → All (λ p. severity p ≤ severity (worst_outcome os)) os
      × ((worst_outcome os ≡ ok) ⊎ OneOf (worst_outcome os) os)
unfolding worst_outcome
worst_outcome-le os = ((worst_from-le ok os).1, worst_from-OneOf ok os)
