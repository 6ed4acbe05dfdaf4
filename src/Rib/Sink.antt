-- ===== src/Rib/Sink.antt =====
-- packets/routing/rtengine/fib/sink.py: the interface `FibSink` and the default `NullSink`.
use packets.Base.{ℕ, ◌+◌, String, Bool, [], ◌∷◌, length, string_key, nat_key, if◌then◌else◌}
use packets.Base.Dict
use packets.Base.Dict.{Dict}
use packets.Rib.Route.{Route}

-- The `FIB_STATE_*` constants that `NullSink` writes.
pub data FibState : Type 0 where
  none_state : FibState
  not_installed : FibState

-- What publication needs of a sink.
pub record FibSink (S : Type 0) : Type 0 where
  pub install : Route → S → S
  pub withdraw : Route → S → S

-- `NullSink`; `fib_states` holds what it writes into the route objects, by their identity.
pub record NullSink : Type 0 where
  pub installed : ℕ
  pub withdrawn : ℕ
  pub flushes : ℕ
  pub routes : Dict String Route
  pub fib_states : Dict ℕ FibState

unfoldable pub no_routes : NullSink
no_routes = record { installed = 0; withdrawn = 0; flushes = 0; routes = []; fib_states = [] }

-- `NullSink.install`
unfoldable pub install : Route → NullSink → NullSink
install route sink = record sink {
  installed = sink.installed + 1;
  routes = Dict.put route.prefix.text route sink.routes;
  fib_states = Dict.put route.handle not_installed sink.fib_states;
}

-- `NullSink.withdraw`
unfoldable pub withdraw : Route → NullSink → NullSink
withdraw route sink = record sink {
  withdrawn = sink.withdrawn + 1;
  routes = Dict.remove route.prefix.text sink.routes;
  fib_states = Dict.put route.handle none_state sink.fib_states;
}

-- `NullSink.flush`
unfoldable pub flush : NullSink → NullSink × ℕ
flush sink = (record sink { flushes = sink.flushes + 1 }, 0)

abbrev reset_states : Dict String Route → Dict ℕ FibState → Dict ℕ FibState
reset_states [] states = states
reset_states ((text, route) ∷ routes) states =
    reset_states routes (Dict.put route.handle none_state states)

-- `NullSink.shutdown`
unfoldable pub shutdown : Bool → NullSink → NullSink × ℕ
shutdown retain sink = (
  if retain
      then sink
      else record sink { fib_states = reset_states sink.routes sink.fib_states; routes = [] },
  length sink.routes,
)

abbrev pub null_sink : FibSink NullSink
null_sink = record { install = install; withdraw = withdraw }
