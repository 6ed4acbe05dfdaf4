-- ===== src/Bgp/Errors/Examples.antt =====
-- errors.py: the theorems at concrete faults.
use packets.Base.{true, List, [], ◌∷◌, ◌≡◌, ◌↔◌, refl, none, some, decimal, nat_key, pair_key}
use packets.Bgp.Errors.{notify_name}
use packets.Bgp.Errors.Outcomes.{
  attr, attribute_length, attribute_value, Outcome, attribute_discard, treat_as_withdraw,
  session_reset, attribute_outcome, worst_outcome,
}
use packets.Bgp.Errors.Severity.{fatal, attribute_outcome-reset_iff}
use packets.Bgp.Errors.Counters.{UpdateError, attr_key, reason_key, outcome_key}

attribute_outcome-reset_iff_example :
    (attribute_outcome (attr 14) attribute_length true true ≡ session_reset)
    ↔ (fatal (attr 14) attribute_length true ≡ true)
attribute_outcome-reset_iff_example =
    attribute_outcome-reset_iff (attr 14) attribute_length true true

abbrev outcomes : List Outcome
outcomes = attribute_discard ∷ treat_as_withdraw ∷ attribute_discard ∷ []

worst : worst_outcome outcomes ≡ treat_as_withdraw
unfolding worst_outcome
worst = refl

abbrev faults : List UpdateError
faults =
    record {
      attr_type = attr 16;
      reason = attribute_length;
      outcome = treat_as_withdraw;
      detail = none;
    }
    ∷ record {
      attr_type = attr 6;
      reason = attribute_value;
      outcome = attribute_discard;
      detail = none;
    }
    ∷ []

names :
    (notify_name 3 (some 11) ≡ "UPDATE Message Error/Malformed AS_PATH")
    × (notify_name 6 (some 99) ≡ "Cease/Subcode 99")
unfolding notify_name decimal
names = (refl, refl)
