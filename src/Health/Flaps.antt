-- ===== src/Health/Flaps.antt =====
-- packets/routing/rtengine/health.py: the window of recent flaps.
use packets.Base.{
  ℕ, ◌+◌, ◌≤◌, min, ◌≡◌, refl, sym, ap, ◌∙◌, append-nil, append_assoc, Bool, true, not, List, [],
  ◌∷◌, ◌++◌, length, length-append, count_if, count_if-append, count_if-le-length, All, All-append,
  ltb, if◌then◌else◌, arith, Bool-cases, inl, inr,
}
use packets.Health.Monitor.{
  HealthConfig, HealthMonitor, note_peer_flap, recent_flaps, new, push, forget, max_flaps,
}

-- What happens to a monitor: a flap, or a reading of the count.
pub data Op : Type 0 where
  flap : ℕ → Op
  reading : ℕ → Op

abbrev pub at : Op → ℕ
at (flap t) = t
at (reading t) = t

-- A flap is recent until more than the window has passed.
abbrev pub recent : ℕ → ℕ → ℕ → Bool
recent window now t = not (ltb (t + window) now)

abbrev apply : HealthConfig → Op → HealthMonitor → HealthMonitor
apply c (flap t) m = note_peer_flap t m
apply c (reading t) m = (recent_flaps c t m).0

abbrev pub run : HealthConfig → List Op → HealthMonitor → HealthMonitor
run c [] m = m
run c (op ∷ ops) m = run c ops (apply c op m)

-- The instants of all flaps.
abbrev pub flap_times : List Op → List ℕ
flap_times [] = []
flap_times (flap t ∷ ops) = t ∷ flap_times ops
flap_times (reading t ∷ ops) = flap_times ops

-- The clock does not run backwards, from an instant on.
abbrev pub Ordered : ℕ → List Op → Type 0
Ordered start [] = Unit
Ordered start (op ∷ ops) = (start ≤ at op) × Ordered (at op) ops

abbrev Sorted : List ℕ → Type 0
Sorted [] = Unit
Sorted (t ∷ ts) = All (λ u. t ≤ u) ts × Sorted ts

module _ (window now : ℕ) where
  -- In a sorted list with a recent head all are recent.
  recent-All :
      (t : ℕ) (ts : List ℕ)
      → recent window now t ≡ true
      → All (λ u. t ≤ u) ts
      → count_if (recent window now) ts ≡ length ts
  recent-All t [] r a = refl
  recent-All t (u ∷ us) r (le, a) = let rest = recent-All t us r a in ground arith

  -- In a sorted list those that are kept are the recent ones.
  forget-count :
      (ts : List ℕ) → Sorted ts → length (forget window now ts) ≡ count_if (recent window now) ts
  forget-count [] s = refl
  forget-count (t ∷ ts) (a, s) = elim (Bool-cases (recent window now t)) [
    | inl r ↦ let rest = recent-All t ts r a in ground arith
    | inr r ↦ let rest = forget-count ts s in ground arith
  ]

  -- What is forgotten is not recent later either.
  forget-later :
      (before : ℕ)
      → before ≤ now
      → (ts : List ℕ)
      → count_if (recent window now) (forget window before ts) ≡ count_if (recent window now) ts
  forget-later before le [] = refl
  forget-later before le (t ∷ ts) = let rest = forget-later before le ts in ground arith

  forget-Sorted : (ts : List ℕ) → Sorted ts → Sorted (forget window now ts)
  forget-Sorted [] s = tt
  forget-Sorted (t ∷ ts) (a, s) = elim (Bool-cases (ltb (t + window) now)) [
    | inl e ↦ rw e (forget-Sorted ts s)
    | inr e ↦ rw e (a, s)
  ]

  forget-length : (ts : List ℕ) → length (forget window now ts) ≤ length ts
  forget-length [] = omega arith
  forget-length (t ∷ ts) = let le = forget-length ts in ground arith

forget-All :
    (window now last : ℕ) (ts : List ℕ)
    → All (λ u. u ≤ last) ts
    → All (λ u. u ≤ last) (forget window now ts)
forget-All window now last [] a = tt
forget-All window now last (t ∷ ts) (p, a) = elim (Bool-cases (ltb (t + window) now)) [
  | inl e ↦ rw e (forget-All window now last ts a)
  | inr e ↦ rw e (p, a)
]

Sorted-append : (t : ℕ) (ts : List ℕ) → Sorted ts → All (λ u. u ≤ t) ts → Sorted (ts ++ t ∷ [])
Sorted-append t [] s a = (tt, tt)
Sorted-append t (u ∷ us) (b, s) (le, a) =
    (All-append (λ v. u ≤ v) us (t ∷ []) b (le, tt), Sorted-append t us s a)

All-le : (n m : ℕ) → n ≤ m → (ts : List ℕ) → All (λ u. u ≤ n) ts → All (λ u. u ≤ m) ts
All-le n m le [] a = tt
All-le n m le (t ∷ ts) (p, a) = (omega arith, All-le n m le ts a)

module _ (window : ℕ) where
  -- The flaps that are kept, and all there were until an instant.
  record Tracks (last : ℕ) (history kept : List ℕ) : Type 0 where
    sorted : Sorted kept
    past : All (λ u. u ≤ last) kept
    bounded : length kept ≤ max_flaps
    exact :
        (now : ℕ)
        → last ≤ now
        → count_if (recent window now) kept ≡ min max_flaps (count_if (recent window now) history)

  forget-Tracks :
      (last t : ℕ) (h d : List ℕ) → last ≤ t → Tracks last h d → Tracks t h (forget window t d)
  forget-Tracks last t h d le k = record {
    sorted = forget-Sorted window t d k.sorted;
    past = forget-All window t t d (All-le last t le d k.past);
    bounded = let le = forget-length window t d in omega (arith, k.bounded);
    exact = λ now ge. forget-later window now t ge d ∙ k.exact now (omega arith);
  }

  -- A full list of flaps makes room for one more.
  full-count :
      (now t u h : ℕ) (us : List ℕ)
      → All (λ v. u ≤ v) us
      → u ≤ t
      → length us ≡ 1023
      → count_if (recent window now) (u ∷ us) ≡ min max_flaps h
      → count_if (recent window now) us + (if recent window now t then 1 else 0)
        ≡ min max_flaps (h + (if recent window now t then 1 else 0))
  full-count now t u h us a le full e = elim (Bool-cases (recent window now u)) [
    | inl r ↦ let all = recent-All window now u us r a in ground arith
    | inr r ↦ let some_count = count_if-le-length (recent window now) us in ground arith
  ]

  push-count :
      (now t h : ℕ) (d : List ℕ)
      → Sorted d
      → All (λ u. u ≤ t) d
      → length d ≤ max_flaps
      → count_if (recent window now) d ≡ min max_flaps h
      → count_if (recent window now) (push t d)
        ≡ min max_flaps (h + (if recent window now t then 1 else 0))
  push-count now t h [] s a le e = ground arith
  push-count now t h (u ∷ us) s a le e = elim (Bool-cases (ltb (length (u ∷ us)) max_flaps)) [
    | inl room ↦ rw room (
        let split = count_if-append (recent window now) (u ∷ us) (t ∷ []) in
        let within = count_if-le-length (recent window now) (u ∷ us) in ground arith)
    | inr full ↦ rw full (
        let split = count_if-append (recent window now) us (t ∷ []) in
        let step = full-count now t u h us s.0 a.0 (ground arith) e in omega (arith, split, step))
  ]

  push-Sorted : (t : ℕ) (d : List ℕ) → Sorted d → All (λ u. u ≤ t) d → Sorted (push t d)
  push-Sorted t [] s a = (tt, tt)
  push-Sorted t (u ∷ us) s a = elim (Bool-cases (ltb (length (u ∷ us)) max_flaps)) [
    | inl room ↦ rw room (Sorted-append t (u ∷ us) s a)
    | inr full ↦ rw full (Sorted-append t us s.1 a.1)
  ]

  push-past : (t : ℕ) (d : List ℕ) → All (λ u. u ≤ t) d → All (λ u. u ≤ t) (push t d)
  push-past t [] a = (omega arith, tt)
  push-past t (u ∷ us) a = elim (Bool-cases (ltb (length (u ∷ us)) max_flaps)) [
    | inl room ↦ rw room (All-append (λ v. v ≤ t) (u ∷ us) (t ∷ []) a (omega arith, tt))
    | inr full ↦ rw full (All-append (λ v. v ≤ t) us (t ∷ []) a.1 (omega arith, tt))
  ]

  push-length : (t : ℕ) (d : List ℕ) → length d ≤ max_flaps → length (push t d) ≤ max_flaps
  push-length t [] le = omega arith
  push-length t (u ∷ us) le = elim (Bool-cases (ltb (length (u ∷ us)) max_flaps)) [
    | inl room ↦ rw room (let split = length-append (u ∷ us) (t ∷ []) in ground arith)
    | inr full ↦ rw full (let split = length-append us (t ∷ []) in omega arith)
  ]

  added :
      (now : ℕ) (h : List ℕ) (t : ℕ)
      → count_if (recent window now) (h ++ t ∷ [])
        ≡ count_if (recent window now) h + (if recent window now t then 1 else 0)
  added now h t = omega (arith, count_if-append (recent window now) h (t ∷ []))

  push-Tracks :
      (last t : ℕ) (h d : List ℕ) → last ≤ t → Tracks last h d → Tracks t (h ++ t ∷ []) (push t d)
  push-Tracks last t h d le k =
      let past = All-le last t le d k.past in
      record {
        sorted = push-Sorted t d k.sorted past;
        past = push-past t d past;
        bounded = push-length t d k.bounded;
        exact = λ now ge.
            push-count now t (count_if (recent window now) h) d k.sorted past k.bounded
              (k.exact now (omega arith))
            ∙ ap (min max_flaps) (sym (added now h t));
      }

module _ (c : HealthConfig) (now : ℕ) where
  run-exact :
      (last : ℕ) (h : List ℕ) (ops : List Op) (m : HealthMonitor)
      → Tracks c.flap_window last h m.flaps
      → Ordered last (ops ++ reading now ∷ [])
      → (recent_flaps c now (run c ops m)).1
        ≡ min max_flaps (count_if (recent c.flap_window now) (h ++ flap_times ops))
  unfolding recent_flaps note_peer_flap
  run-exact last h [] m k o =
      forget-count c.flap_window now m.flaps k.sorted
      ∙ k.exact now o.0
      ∙ ap (λ l. min max_flaps (count_if (recent c.flap_window now) l)) (sym (append-nil h))
  run-exact last h (flap t ∷ ops) m k o =
      run-exact t (h ++ t ∷ []) ops (note_peer_flap t m)
        (push-Tracks c.flap_window last t h m.flaps o.0 k) o.1
      ∙ ap (λ l. min max_flaps (count_if (recent c.flap_window now) l))
          (append_assoc h (t ∷ []) (flap_times ops))
  run-exact last h (reading t ∷ ops) m k o =
      run-exact t h ops (recent_flaps c t m).0 (forget-Tracks c.flap_window last t h m.flaps o.0 k)
        o.1

  -- If the clock does not run backwards, the count that is read after any flaps and readings is the
  -- number of all flaps within the window, up to 1024.
  pub recent_flaps-exact :
      (ops : List Op)
      → Ordered 0 (ops ++ reading now ∷ [])
      → (recent_flaps c now (run c ops new)).1
        ≡ min max_flaps (count_if (recent c.flap_window now) (flap_times ops))
  unfolding new
  recent_flaps-exact ops o =
      run-exact 0 [] ops new
        (record { sorted = tt; past = tt; bounded = omega arith; exact = λ now ge. ground arith }) o
