-- ===== src/Rib/Route.antt =====
-- The Cython classes that the RIB's Python code reads: packets/routing/rtengine/rib/prefix.pyx
-- (`Prefix`) and packets/routing/rtengine/rib/table.pyx (`Route`, `Dest`), as far as it reads them.
use packets.Base.{ℕ, String, Bool, Option, List}
use packets.Rib.Trie.Bits.{Bits}

-- A packed address.
abbrev pub Bytes : Type 0
Bytes = List ℕ

-- A destination prefix: its family, its significant bits, its text and its length.
pub record Prefix : Type 0 where
  pub afi : ℕ
  pub bits : Bits
  pub text : String
  pub plen : ℕ

-- A route. `handle` stands for the object's identity and `source` for that of the token; of the
-- time only the order matters. What is left out is what a sink writes, and the version that
-- selection stamps on a winner: it is the version of its destination.
pub record Route : Type 0 where
  pub handle : ℕ
  pub prefix : Prefix
  pub protocol : ℕ
  pub admin_distance : ℕ
  pub metric : ℕ
  pub nexthop : Bytes
  pub source : ℕ
  pub recv_time : ℕ

-- A destination: its prefix, the routes offered for it, the best of them, the version of its last
-- change, and whether it waits for selection.
pub record Dest : Type 0 where
  pub prefix : Prefix
  pub routes : List Route
  pub best : Option Route
  pub version : ℕ
  pub queued : Bool
