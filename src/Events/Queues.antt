-- ===== src/Events/Queues.antt =====
-- events.py: what a bounded queue holds after any number of events, and what the counters say.
use packets.Base.{
  ℕ, zero, suc, ◌+◌, ◌≤◌, ◌<◌, Bool, true, false, List, [], ◌∷◌, ◌++◌, append_assoc, append-nil,
  String, ◌≡◌, ◌≢◌, refl, sym, ◌∙◌, All, arith, string_key, ◌==◌, if◌then◌else◌, leb, length,
  length-append, ap, inl, inr, Bool-cases,
}
use packets.Events.Delivery.{Subscription, drop_oldest, deliver, deliver_all, wants, sum_dropped}

module _ {A : Type 0} where
  -- The last `n` elements.
  abbrev pub keep_last : ℕ → List A → List A
  keep_last n [] = []
  keep_last n (x ∷ xs) =
      let rest = keep_last n xs in if leb (length (x ∷ xs)) n then x ∷ xs else rest

  -- The first `n` elements.
  abbrev pub take : ℕ → List A → List A
  take zero xs = []
  take (suc n) [] = []
  take (suc n) (x ∷ xs) = x ∷ take n xs

  keep_last_all : (n : ℕ) (xs : List A) → length xs ≤ n → keep_last n xs ≡ xs
  keep_last_all n [] h = refl
  keep_last_all n (x ∷ xs) h = ground arith

  keep_last-drop :
      (n : ℕ) (x : A) (xs : List A) → n < length (x ∷ xs) → keep_last n (x ∷ xs) ≡ keep_last n xs
  keep_last-drop n x xs h = ground arith

  take_all : (n : ℕ) (xs : List A) → length xs ≤ n → take n xs ≡ xs
  take_all zero [] h = refl
  take_all zero (x ∷ xs) h = absurd (omega arith)
  take_all (suc n) [] h = refl
  take_all (suc n) (x ∷ xs) h = ap (◌∷◌ x) (take_all n xs (omega arith))

  take-append-full : (n : ℕ) (xs ys : List A) → length xs ≡ n → take n (xs ++ ys) ≡ xs
  take-append-full zero [] ys h = refl
  take-append-full zero (x ∷ xs) ys h = absurd (omega arith)
  take-append-full (suc n) [] ys h = absurd (omega arith)
  take-append-full (suc n) (x ∷ xs) ys h = ap (◌∷◌ x) (take-append-full n xs ys (omega arith))

module _ {Payload : Type 0} where
  -- A queue within its bound.
  pub record IsBounded (s : Subscription Payload) : Type 0 where
    pub positive : 1 ≤ s.maxsize
    pub within : length s.queue ≤ s.maxsize

  -- The items of a subscription, delivered one after another while nothing is read.
  unfoldable pub deliver_items :
      Subscription Payload → List (String × Payload) → Subscription Payload
  deliver_items s [] = s
  deliver_items s (x ∷ xs) = deliver_items (deliver x s).0 xs

  -- One delivery to a queue that keeps the newest.
  pub record Newest (s : Subscription Payload) (x : String × Payload) (s' : Subscription Payload)
      : Type 0 where
    pub bounded : IsBounded s'
    pub same_policy : s'.overflow ≡ s.overflow
    pub same_bound : s'.maxsize ≡ s.maxsize
    pub counted : s'.delivered ≡ s.delivered + 1
    pub balance : s'.dropped + length s'.queue ≡ s.dropped + length s.queue + 1
    pub kept :
        (xs : List (String × Payload))
        → keep_last s.maxsize (s'.queue ++ xs) ≡ keep_last s.maxsize (s.queue ++ x ∷ xs)

  deliver_oldest :
      (q : List (String × Payload)) (s : Subscription Payload) (x : String × Payload)
      → IsBounded (record s { queue = q })
      → s.overflow ≡ drop_oldest
      → Newest (record s { queue = q }) x (deliver x (record s { queue = q })).0
  unfolding deliver
  deliver_oldest [] s x b h = record {
    bounded = ground (arith, b);
    same_policy = ground (arith, b);
    same_bound = ground (arith, b);
    counted = ground (arith, b);
    balance = ground (arith, b);
    kept = λ xs. ground (arith, b);
  }
  deliver_oldest (y ∷ q) s x b h =
      let len = length-append q (x ∷ []) in
      let test = string_key.same_iff s.overflow drop_oldest in
      record {
        bounded = ground (arith, b, len, test);
        same_policy = ground (arith, b, len, test);
        same_bound = ground (arith, b, len, test);
        counted = ground (arith, b, len, test);
        balance = ground (arith, b, len, test);
        kept = λ xs. ground (
          arith,
          b,
          len,
          test,
          append_assoc q (x ∷ []) xs,
          length-append q (x ∷ xs),
          keep_last-drop s.maxsize y (q ++ x ∷ xs),
        );
      }

  -- What a queue of a policy promises after some deliveries.
  pub record NewestOf (s : Subscription Payload) (xs : List (String × Payload))
      (s' : Subscription Payload) : Type 0 where
    pub holds : s'.queue ≡ keep_last s.maxsize (s.queue ++ xs)
    pub delivered_all : s'.delivered ≡ s.delivered + length xs
    pub lost_rest : s'.dropped + length s'.queue ≡ s.dropped + length s.queue + length xs

  -- A subscription that drops the oldest holds the newest items that fit, whatever was published
  -- while it was not read; every item was delivered, and those that are gone are counted.
  pub deliver_items-oldest :
      (xs : List (String × Payload)) (s : Subscription Payload)
      → IsBounded s
      → s.overflow ≡ drop_oldest
      → NewestOf s xs (deliver_items s xs)
  unfolding deliver_items
  deliver_items-oldest [] s b h = record {
    holds = rw append-nil (sym (keep_last_all s.maxsize s.queue b.within));
    delivered_all = omega arith;
    lost_rest = omega arith;
  }
  deliver_items-oldest (x ∷ xs) s b h =
      let one = deliver_oldest s.queue s x b h in
      let rest = deliver_items-oldest xs (deliver x s).0 one.bounded (one.same_policy ∙ h) in
      record {
        holds = rest.holds ∙ rw one.same_bound (one.kept xs);
        delivered_all = omega (arith, rest.delivered_all, one.counted);
        lost_rest = omega (arith, rest.lost_rest, one.balance);
      }

  -- One delivery to a queue that keeps the oldest.
  record Oldest (s : Subscription Payload) (x : String × Payload) (s' : Subscription Payload)
      : Type 0 where
    bounded : IsBounded s'
    same_policy : s'.overflow ≡ s.overflow
    same_bound : s'.maxsize ≡ s.maxsize
    counted : s'.delivered + s'.dropped ≡ s.delivered + s.dropped + 1
    grown : s'.delivered + length s.queue ≡ s.delivered + length s'.queue
    kept :
        (xs : List (String × Payload))
        → take s.maxsize (s'.queue ++ xs) ≡ take s.maxsize (s.queue ++ x ∷ xs)

  deliver_newest :
      (s : Subscription Payload) (x : String × Payload)
      → IsBounded s
      → s.overflow ≢ drop_oldest
      → Oldest s x (deliver x s).0
  unfolding deliver
  deliver_newest s x b h =
      let len = length-append s.queue (x ∷ []) in
      let test = string_key.same_iff s.overflow drop_oldest in
      record {
        bounded = ground (arith, b, len, test);
        same_policy = ground (arith, b, len, test);
        same_bound = ground (arith, b, len, test);
        counted = ground (arith, b, len, test);
        grown = ground (arith, b, len, test);
        kept = λ xs. ground (
          arith,
          b,
          test,
          append_assoc s.queue (x ∷ []) xs,
          take-append-full s.maxsize s.queue xs,
          take-append-full s.maxsize s.queue (x ∷ xs),
        );
      }

  pub record OldestOf (s : Subscription Payload) (xs : List (String × Payload))
      (s' : Subscription Payload) : Type 0 where
    pub holds : s'.queue ≡ take s.maxsize (s.queue ++ xs)
    pub delivered_held : s'.delivered + length s.queue ≡ s.delivered + length s'.queue
    pub counted_all : s'.delivered + s'.dropped ≡ s.delivered + s.dropped + length xs

  -- A subscription that drops the newest holds the oldest items that fit, whatever was published
  -- while it was not read; those it holds were delivered, and all others are counted as dropped.
  pub deliver_items-newest :
      (xs : List (String × Payload)) (s : Subscription Payload)
      → IsBounded s
      → s.overflow ≢ drop_oldest
      → OldestOf s xs (deliver_items s xs)
  unfolding deliver_items
  deliver_items-newest [] s b h = record {
    holds = rw append-nil (sym (take_all s.maxsize s.queue b.within));
    delivered_held = omega arith;
    counted_all = omega arith;
  }
  deliver_items-newest (x ∷ xs) s b h =
      let one = deliver_newest s x b h in
      let rest = deliver_items-newest xs (deliver x s).0 one.bounded (rw one.same_policy h) in
      record {
        holds = rest.holds ∙ rw one.same_bound (one.kept xs);
        delivered_held = omega (arith, rest.delivered_held, one.grown);
        counted_all = omega (arith, rest.counted_all, one.counted);
      }

  deliver-dropped :
      (x : String × Payload) (s : Subscription Payload)
      → (deliver x s).0.dropped ≡ s.dropped + (deliver x s).1
  unfolding deliver
  deliver-dropped x s = ground arith

  deliver-IsBounded :
      (x : String × Payload) (s : Subscription Payload) → IsBounded s → IsBounded (deliver x s).0
  deliver-IsBounded x s b = elim (Bool-cases (s.overflow == drop_oldest)) [
    | inl e ↦
        (deliver_oldest s.queue s x b ((string_key.same_iff s.overflow drop_oldest).0 e)).bounded
    | inr e ↦
        (deliver_newest s x b
          (λ p. ground (arith, string_key.same_iff s.overflow drop_oldest))).bounded
  ]

  pub sum_dropped-deliver_all :
      (event : String) (p : Payload) (ss : List (Subscription Payload))
      → sum_dropped (deliver_all event p ss).0 ≡ sum_dropped ss + (deliver_all event p ss).1
  unfolding deliver_all
  sum_dropped-deliver_all event p [] = omega arith
  sum_dropped-deliver_all event p (s ∷ ss) =
      ground (arith, sum_dropped-deliver_all event p ss, deliver-dropped (event, p) s)

  pub deliver_all-IsBounded :
      (event : String) (p : Payload) (ss : List (Subscription Payload))
      → All IsBounded ss
      → All IsBounded (deliver_all event p ss).0
  unfolding deliver_all
  deliver_all-IsBounded event p [] b = tt
  deliver_all-IsBounded event p (s ∷ ss) b =
      (if_bounded (wants event s), deliver_all-IsBounded event p ss b.1)
    where
      if_bounded : (w : Bool) → IsBounded (if w then deliver (event, p) s else (s, 0)).0
      if_bounded true = deliver-IsBounded (event, p) s b.0
      if_bounded false = b.0
