-- ===== src/Bgp/Errors/Counters.antt =====
-- packets/routing/rtengine/plugins/bgp/errors.py: `UpdateError` and `PeerErrorCounters`.
use packets.Base.{
  ℕ, ◌+◌, eqb, Bool, true, false, Option, List, [], ◌∷◌, String, ◌≡◌, ◌↔◌, arith, Key, nat_key,
  pair_key, ◌==◌, length, count_if,
}
use packets.Base.Dict.{Dict, count_of, count_up, total, total-count_up, count_of-count_up, get}
use packets.Bgp.Errors.Outcomes.{
  Attr, attr_list, attr, Reason, attribute_flags, attribute_length, attribute_value,
  duplicate_attribute, missing_attribute, unparseable, unnegotiated_family, Outcome, ok,
  attribute_discard, treat_as_withdraw, session_reset, severity,
}

abbrev pub outcome_same : Outcome → Outcome → Bool
outcome_same a b = eqb (severity a) (severity b)

pub outcome_same_iff : (a b : Outcome) → (outcome_same a b ≡ true) ↔ (a ≡ b)
outcome_same_iff ok b = ground arith
outcome_same_iff _ b = ground arith

instance abbrev pub outcome_key : Key Outcome
outcome_key = record { same = outcome_same; same_iff = outcome_same_iff }

abbrev reason_index : Reason → ℕ
reason_index attribute_flags = 0
reason_index attribute_length = 1
reason_index attribute_value = 2
reason_index duplicate_attribute = 3
reason_index missing_attribute = 4
reason_index unparseable = 5
reason_index unnegotiated_family = 6

abbrev reason_same : Reason → Reason → Bool
reason_same a b = eqb (reason_index a) (reason_index b)

pub reason_same_iff : (a b : Reason) → (reason_same a b ≡ true) ↔ (a ≡ b)
reason_same_iff attribute_flags b = ground arith
reason_same_iff _ b = ground arith

instance abbrev pub reason_key : Key Reason
reason_key = record { same = reason_same; same_iff = reason_same_iff }

abbrev attr_same : Attr → Attr → Bool
attr_same attr_list attr_list = true
attr_same (attr a) (attr b) = eqb a b
attr_same _ _ = false

pub attr_same_iff : (a b : Attr) → (attr_same a b ≡ true) ↔ (a ≡ b)
attr_same_iff attr_list b = ground arith
attr_same_iff (attr a) b = ground arith

instance abbrev pub attr_key : Key Attr
attr_key = record { same = attr_same; same_iff = attr_same_iff }

pub record UpdateError : Type 0 where
  pub attr_type : Attr
  pub reason : Reason
  pub outcome : Outcome
  pub detail : Option String

pub record PeerErrorCounters : Type 0 where
  pub outcomes : Dict Outcome ℕ
  pub attributes : Dict (Attr × Reason) ℕ
  pub notify_sent : Dict (ℕ × ℕ) ℕ
  pub notify_received : Dict (ℕ × ℕ) ℕ

-- `PeerErrorCounters.__init__`, and what `reset` leaves
unfoldable pub no_errors : PeerErrorCounters
no_errors = record {
  outcomes = (ok, 0) ∷ (attribute_discard, 0) ∷ (treat_as_withdraw, 0) ∷ (session_reset, 0) ∷ [];
  attributes = [];
  notify_sent = [];
  notify_received = [];
}

-- `record`, with what it returns
unfoldable pub record_error : PeerErrorCounters → UpdateError → PeerErrorCounters × Outcome
record_error c e = (
  record c {
    outcomes = count_up e.outcome c.outcomes;
    attributes = count_up (e.attr_type, e.reason) c.attributes;
  },
  e.outcome,
)

-- `record_notification_sent`
unfoldable pub record_notification_sent : PeerErrorCounters → ℕ → ℕ → PeerErrorCounters × ℕ
record_notification_sent c code subcode =
    let sent = count_up (code, subcode) c.notify_sent in
    (record c { notify_sent = sent }, count_of (code, subcode) sent)

-- `record_notification_received`
unfoldable pub record_notification_received : PeerErrorCounters → ℕ → ℕ → PeerErrorCounters × ℕ
record_notification_received c code subcode =
    let received = count_up (code, subcode) c.notify_received in
    (record c { notify_received = received }, count_of (code, subcode) received)

-- `total`
unfoldable pub total_faults : PeerErrorCounters → ℕ
unfolding total
total_faults c = total c.outcomes

-- `reset`
unfoldable pub reset : PeerErrorCounters → PeerErrorCounters
reset c = no_errors

-- The faults of a session, recorded one after another.
unfoldable pub record_all : PeerErrorCounters → List UpdateError → PeerErrorCounters
record_all c [] = c
record_all c (e ∷ es) = record_all (record_error c e).0 es

record_all-counts :
    (c : PeerErrorCounters) (es : List UpdateError)
    → (total (record_all c es).outcomes ≡ total c.outcomes + length es)
      × ((o : Outcome)
          → count_of o (record_all c es).outcomes
            ≡ count_of o c.outcomes + count_if (λ e. outcome_same e.outcome o) es)
      × ((k : Attr × Reason)
          → count_of k (record_all c es).attributes
            ≡ count_of k c.attributes + count_if (λ e. (e.attr_type, e.reason) == k) es)
unfolding record_all record_error
record_all-counts c [] = (omega arith, (λ o. omega arith), (λ k. omega arith))
record_all-counts c (e ∷ es) =
    let (all, by_outcome, by_attribute) = record_all-counts (record_error c e).0 es in
    (
      omega (arith, all, total-count_up e.outcome c.outcomes),
      (λ o. ground (arith, by_outcome o, count_of-count_up e.outcome o c.outcomes)),
      (λ k.
          ground (arith, by_attribute k, count_of-count_up (e.attr_type, e.reason) k c.attributes)),
    )

-- After a reset, the counters of the faults that follow are exact: in total, for each outcome, and
-- for each attribute and reason.
pub record_all-reset :
    (c : PeerErrorCounters) (es : List UpdateError)
    → let c' = record_all (reset c) es in
      (total_faults c' ≡ length es)
      × ((o : Outcome) → count_of o c'.outcomes ≡ count_if (λ e. outcome_same e.outcome o) es)
      × ((k : Attr × Reason)
          → count_of k c'.attributes ≡ count_if (λ e. (e.attr_type, e.reason) == k) es)
unfolding total_faults reset no_errors get
record_all-reset c es =
    let (all, by_outcome, by_attribute) = record_all-counts no_errors es in
    (omega (arith, all), (λ o. fresh o (by_outcome o)), (λ k. omega (arith, by_attribute k)))
  where
    fresh : (o : Outcome) {n m : ℕ} → n ≡ count_of o no_errors.outcomes + m → n ≡ m
    fresh ok h = omega arith
    fresh _ h = omega arith
