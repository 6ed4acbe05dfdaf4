-- ===== src/Bgp/Fsm/Collision.antt =====
-- fsm.py: `resolve_collision`, which decides which of two simultaneous connections survives.
use packets.Base.{ℕ, ◌≡◌, ◌≢◌, ◌⊎◌, arith, Bool, true, false, not, eqb, ltb, if◌then◌else◌}

unfoldable pub resolve_collision : ℕ → ℕ → ℕ → ℕ → Bool → Bool
resolve_collision local_id peer_id local_as peer_as we_initiated =
    if eqb local_id peer_id
    then (if eqb local_as peer_as
        then false
        else if ltb peer_as local_as
        then we_initiated
        else not we_initiated)
    else if ltb peer_id local_id
    then we_initiated
    else not we_initiated

module _ (local_id peer_id local_as peer_as : ℕ) where
  -- Both ends come to the same verdict on each connection, whoever opened it.
  pub resolve_collision_agrees :
      (ours : Bool)
      → resolve_collision local_id peer_id local_as peer_as ours
        ≡ resolve_collision peer_id local_id peer_as local_as (not ours)
  unfolding resolve_collision
  resolve_collision_agrees ours = ground arith

  -- Of the two connections exactly one survives, unless identifiers and AS numbers are both equal.
  pub resolve_collision_one :
      (local_id ≢ peer_id) ⊎ (local_as ≢ peer_as)
      → resolve_collision local_id peer_id local_as peer_as true
        ≡ not (resolve_collision local_id peer_id local_as peer_as false)
  unfolding resolve_collision
  resolve_collision_one h = ground arith
