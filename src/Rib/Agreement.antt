-- ===== src/Rib/Agreement.antt =====
-- globalrib.py and sink.py: what was published is what the sink holds, and what selection said last.
use packets.Base.{
  ℕ, String, Option, none, some, List, [], ◌∷◌, ◌≡◌, refl, ◌∙◌, All, string_key, nat_key, pair_key,
  list_key, bool_key, true, sym, Key, ◌↔◌, ◌==◌, if◌then◌else◌, arith, ap, eqb_iff, Bool-cases,
  Option-cases, inl, inr,
}
use packets.Base.Dict
use packets.Base.Dict.{Dict}
use packets.Rib.Route.{Route, Dest}
use packets.Rib.Sink.{FibSink, NullSink, null_sink, install, withdraw}
use packets.Rib.Publish.{GlobalRib, RouteKey, PrefixKey, prefix_key, same_key, publish_one, publish}

-- Whether a report's best route, if any, is a route for a text.
abbrev BestFor : String → Option Route → Type 0
BestFor text none = Unit
BestFor text (some r) = r.prefix.text ≡ text

-- The last report for a prefix; `before` if there is none.
abbrev pub last_best : PrefixKey → List Dest → Option Route → Option Route
last_best p [] before = before
last_best p (d ∷ ds) before = last_best p ds (if prefix_key d.prefix == p then d.best else before)

same_key_iff : {K : Type 0} → ⦃key : Key K⦄ → (j k : K) → ((j == k) ≡ true) ↔ (j ≡ k)
same_key_iff ⦃key⦄ j k = key.same_iff j k

-- `home` is where a text belongs: the table, and the prefix that the text stands for.
module _ (home : String → RouteKey) where
  -- A report of the table of a family: its prefix belongs there under its text and no other, and
  -- its route is for the prefix.
  pub record Fits (afi safi : ℕ) (d : Dest) : Type 0 where
    pub of_home : home d.prefix.text ≡ ((afi, safi), prefix_key d.prefix)
    pub of_text : (t : String) → home t ≡ ((afi, safi), prefix_key d.prefix) → t ≡ d.prefix.text
    pub of_prefix : BestFor d.prefix.text d.best

  -- The sink holds under each text what is published where the text belongs, every published route
  -- is where its text belongs, and the counters agree.
  pub record Agrees (r : GlobalRib NullSink) : Type 0 where
    pub held : (t : String) → Dict.get t r.sink.routes ≡ Dict.get (home t) r.published
    pub named :
        (t : String) (route : Route)
        → Dict.get (home t) r.published ≡ some route
        → route.prefix.text ≡ t
    pub owned :
        (k : RouteKey) (route : Route)
        → Dict.get k r.published ≡ some route
        → home route.prefix.text ≡ k
    pub installs : r.sink.installed ≡ r.installed
    pub withdrawals : r.sink.withdrawn ≡ r.withdrawn

  module _ (afi safi : ℕ) (d : Dest) (f : Fits afi safi d) where
    key_same :
        (u : String) → same_key ((afi, safi), prefix_key d.prefix) (home u) ≡ (d.prefix.text == u)
    key_same u =
        let here = same_key_iff ((afi, safi), prefix_key d.prefix) (home u) in
        let texts = string_key.same_iff d.prefix.text u in
        elim (Bool-cases (d.prefix.text == u)) [
          | inl p ↦ here.1 (sym f.of_home ∙ ap home (texts.0 p)) ∙ sym p
          | inr p ↦ elim (Bool-cases (same_key ((afi, safi), prefix_key d.prefix) (home u))) [
            | inl q ↦
                let bad = sym p ∙ texts.1 (sym (f.of_text u (sym (here.0 q)))) in
                absurd (ground arith)
            | inr q ↦ q ∙ sym p
          ]
        ]

  module _ (afi safi : ℕ) (d : Dest) (r : GlobalRib NullSink) (f : Fits afi safi d)
      (a : Agrees r) where
    publish_one-Agrees_best :
        (best : Route)
        → best.prefix.text ≡ d.prefix.text
        → Agrees (publish_one null_sink afi safi (record d { best = some best }) r)
    unfolding publish_one install
    publish_one-Agrees_best best e = record {
      held = λ t. simp (Dict.get-put, e, key_same afi safi d f t, a.held t);
      named = λ t route.
          simp (Dict.get-put, key_same afi safi d f t)
            (ground (arith, a.named t route, string_key.same_iff d.prefix.text t));
      owned = λ k route. simp Dict.get-put (
          ground (
            arith,
            a.owned k route,
            f.of_home,
            e,
            same_key_iff ((afi, safi), prefix_key d.prefix) k,
          ));
      installs = omega (arith, a.installs);
      withdrawals = a.withdrawals;
    }

    publish_one-Agrees_gone :
        (previous : Route)
        → Dict.get ((afi, safi), prefix_key d.prefix) r.published ≡ some previous
        → Agrees (publish_one null_sink afi safi (record d { best = none }) r)
    unfolding publish_one withdraw
    publish_one-Agrees_gone previous e = rw e (record {
      held = λ t. simp (Dict.get-remove, named_previous, key_same afi safi d f t, a.held t);
      named = λ t route.
          simp (Dict.get-remove, key_same afi safi d f t) (ground (arith, a.named t route));
      owned = λ k route. simp Dict.get-remove (ground (arith, a.owned k route));
      installs = a.installs;
      withdrawals = omega (arith, a.withdrawals);
    })
      where
        named_previous : previous.prefix.text ≡ d.prefix.text
        named_previous = a.named d.prefix.text previous (rw f.of_home e)

    publish_one-Agrees_never :
        Dict.get ((afi, safi), prefix_key d.prefix) r.published ≡ none
        → Agrees (publish_one null_sink afi safi (record d { best = none }) r)
    unfolding publish_one
    publish_one-Agrees_never e = rw e (record {
      held = a.held;
      named = a.named;
      owned = a.owned;
      installs = a.installs;
      withdrawals = a.withdrawals;
    })

    publish_one-Agrees_at :
        (best : Option Route)
        → BestFor d.prefix.text best
        → Agrees (publish_one null_sink afi safi (record d { best = best }) r)
    publish_one-Agrees_at (some best) e = publish_one-Agrees_best best e
    publish_one-Agrees_at none e =
        elim (Option-cases (Dict.get ((afi, safi), prefix_key d.prefix) r.published)) [
          | inl never ↦ publish_one-Agrees_never never
          | inr (previous, was) ↦ publish_one-Agrees_gone previous was
        ]

  -- With a `NullSink`, publishing any batch of reports of one table keeps the sink holding exactly
  -- the published routes, each under the text of its prefix, and its counters in step. Each reported
  -- prefix is the only one of its text in all tables, and the route of a report has the text of its
  -- destination.
  pub publish-Agrees :
      (afi safi : ℕ) (changed : List Dest) (r : GlobalRib NullSink)
      → All (Fits afi safi) changed
      → Agrees r
      → Agrees (publish null_sink afi safi changed r)
  unfolding publish
  publish-Agrees afi safi [] r f a = a
  publish-Agrees afi safi (d ∷ ds) r f a =
      publish-Agrees afi safi ds (publish_one null_sink afi safi d r) f.1
        (publish_one-Agrees_at afi safi d r f.0 a d.best f.0.of_prefix)

module _ {S : Type 0} (fib : FibSink S) (afi safi : ℕ) (p : PrefixKey) where
  same_table : (q : PrefixKey) → same_key ((afi, safi), q) ((afi, safi), p) ≡ (q == p)
  same_table q = ground (arith, eqb_iff afi afi, eqb_iff safi safi)

  get-publish_none :
      (d : Dest) (r : GlobalRib S) (previous : Option Route)
      → Dict.get ((afi, safi), prefix_key d.prefix) r.published ≡ previous
      → Dict.get ((afi, safi), p) (publish_one fib afi safi (record d { best = none }) r).published
        ≡ (if prefix_key d.prefix == p then none else Dict.get ((afi, safi), p) r.published)
  unfolding publish_one
  get-publish_none d r none e = rw e (ground (arith, same_key_iff (prefix_key d.prefix) p))
  get-publish_none d r (some previous) e =
      rw e (simp (Dict.get-remove, same_table (prefix_key d.prefix)))

  get-publish_one :
      (d : Dest) (best : Option Route) (r : GlobalRib S)
      → Dict.get ((afi, safi), p) (publish_one fib afi safi (record d { best = best }) r).published
        ≡ (if prefix_key d.prefix == p then best else Dict.get ((afi, safi), p) r.published)
  unfolding publish_one
  get-publish_one d (some best) r = simp (Dict.get-put, same_table (prefix_key d.prefix))
  get-publish_one d none r =
      get-publish_none d r (Dict.get ((afi, safi), prefix_key d.prefix) r.published) refl

  -- With any sink, the published route of each prefix of a table is the last that selection
  -- reported for it, and that of a prefix without a report is what it was.
  pub get-publish :
      (changed : List Dest) (r : GlobalRib S)
      → Dict.get ((afi, safi), p) (publish fib afi safi changed r).published
        ≡ last_best p changed (Dict.get ((afi, safi), p) r.published)
  unfolding publish
  get-publish [] r = refl
  get-publish (d ∷ ds) r =
      get-publish ds (publish_one fib afi safi d r)
      ∙ ap (last_best p ds) (get-publish_one d d.best r)
