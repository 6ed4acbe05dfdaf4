-- ===== src/Rib/Publish.antt =====
-- packets/routing/rtengine/rib/globalrib.py: `GlobalRib._publish`. The sink is any `FibSink`; the
-- destinations that changed are what a table's selection pass reports.
use packets.Base.{
  ℕ, ◌+◌, String, Option, none, some, List, [], ◌∷◌, ◌++◌, nat_key, pair_key, list_key, bool_key,
  ◌==◌, Bool,
}
use packets.Base.Dict
use packets.Base.Dict.{Dict}
use packets.Rib.Sink.{FibSink}
use packets.Rib.Trie.Bits.{Bits}
use packets.Rib.Route.{Prefix, Route, Dest}

-- What makes a `Prefix` the key that it is: `pfx_cmp` compares the family and the significant bits.
abbrev pub PrefixKey : Type 0
PrefixKey = ℕ × Bits

abbrev pub prefix_key : Prefix → PrefixKey
prefix_key p = (p.afi, p.bits)

-- The key of `_published`: `(afi, safi, prefix)`.
abbrev pub RouteKey : Type 0
RouteKey = (ℕ × ℕ) × PrefixKey

abbrev pub same_key : RouteKey → RouteKey → Bool
same_key j k = j == k

-- What is published on the event bus: the family, the text of the prefix, and of a new best the
-- route, the previous one and the version.
pub data RibEvent : Type 0 where
  route_withdraw : ℕ × ℕ → String → RibEvent
  route_best : ℕ × ℕ → String → Route → Option Route → ℕ → RibEvent

-- The state that `_publish` reads and writes, with the sink's own.
pub record GlobalRib (S : Type 0) : Type 0 where
  pub sink : S
  pub events : List RibEvent
  pub published : Dict RouteKey Route
  pub selected : ℕ
  pub installed : ℕ
  pub withdrawn : ℕ

unfoldable pub new : {S : Type 0} → S → GlobalRib S
new sink = record {
  sink = sink;
  events = [];
  published = [];
  selected = 0;
  installed = 0;
  withdrawn = 0;
}

module _ {S : Type 0} (fib : FibSink S) where
  abbrev emit : RibEvent → GlobalRib S → GlobalRib S
  emit e r = record r { events = r.events ++ e ∷ [] }

  -- `if previous is not None`, in the branch that withdraws
  abbrev take_back : RouteKey → Option Route → GlobalRib S → GlobalRib S
  take_back key none r = r
  take_back key (some previous) r = record r {
    published = Dict.remove key r.published;
    sink = fib.withdraw previous r.sink;
    withdrawn = r.withdrawn + 1;
  }

  abbrev hand_over : ℕ × ℕ → Prefix → Route → ℕ → Option Route → GlobalRib S → GlobalRib S
  hand_over family p best version previous r =
      emit (route_best family p.text best previous version) (record r {
        published = Dict.put (family, prefix_key p) best r.published;
        sink = fib.install best r.sink;
        installed = r.installed + 1;
      })

  abbrev publish_best : ℕ × ℕ → Prefix → Option Route → ℕ → GlobalRib S → GlobalRib S
  publish_best family p none version r =
      emit (route_withdraw family p.text)
        (take_back (family, prefix_key p) (Dict.get (family, prefix_key p) r.published) r)
  publish_best family p (some best) version r =
      hand_over family p best version (Dict.get (family, prefix_key p) r.published) r

  -- The body of the loop of `_publish`
  unfoldable pub publish_one : ℕ → ℕ → Dest → GlobalRib S → GlobalRib S
  publish_one afi safi dest r =
      publish_best (afi, safi) dest.prefix dest.best dest.version
        (record r { selected = r.selected + 1 })

  -- `_publish`
  unfoldable pub publish : ℕ → ℕ → List Dest → GlobalRib S → GlobalRib S
  publish afi safi [] r = r
  publish afi safi (dest ∷ changed) r = publish afi safi changed (publish_one afi safi dest r)
