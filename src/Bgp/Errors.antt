-- ===== src/Bgp/Errors.antt =====
-- packets/routing/rtengine/plugins/bgp/errors.py: the NOTIFICATION codes and their names.
pub mod Outcomes
pub mod Severity
pub mod Counters
mod Examples
use Prim.Native.String.{◌++◌}
use packets.Base.{ℕ, String, Option, none, some, decimal, eqb, if◌then◌else◌}

abbrev pub notify_header : ℕ
notify_header = 1

abbrev pub notify_open : ℕ
notify_open = 2

abbrev pub notify_update : ℕ
notify_update = 3

abbrev pub notify_hold_timer : ℕ
notify_hold_timer = 4

abbrev pub notify_fsm : ℕ
notify_fsm = 5

abbrev pub notify_cease : ℕ
notify_cease = 6

abbrev pub notify_route_refresh : ℕ
notify_route_refresh = 7

abbrev pub hdr_conn_not_sync : ℕ
hdr_conn_not_sync = 1

abbrev pub cease_admin_shutdown : ℕ
cease_admin_shutdown = 2

abbrev pub cease_other_config_change : ℕ
cease_other_config_change = 6

abbrev pub cease_collision_resolution : ℕ
cease_collision_resolution = 7

-- `_CODE_NAMES`
unfoldable pub code_names : ℕ → Option String
code_names code =
    if eqb code 1
    then some "Message Header Error"
    else if eqb code 2
    then some "OPEN Message Error"
    else if eqb code 3
    then some "UPDATE Message Error"
    else if eqb code 4
    then some "Hold Timer Expired"
    else if eqb code 5
    then some "Finite State Machine Error"
    else if eqb code 6
    then some "Cease"
    else if eqb code 7
    then some "ROUTE-REFRESH Message Error"
    else none

header_names : ℕ → Option String
header_names sub =
    if eqb sub 1
    then some "Connection Not Synchronized"
    else if eqb sub 2
    then some "Bad Message Length"
    else if eqb sub 3
    then some "Bad Message Type"
    else none

open_names : ℕ → Option String
open_names sub =
    if eqb sub 1
    then some "Unsupported Version Number"
    else if eqb sub 2
    then some "Bad Peer AS"
    else if eqb sub 3
    then some "Bad BGP Identifier"
    else if eqb sub 4
    then some "Unsupported Optional Parameter"
    else if eqb sub 5
    then some "Authentication Failure"
    else if eqb sub 6
    then some "Unacceptable Hold Time"
    else if eqb sub 7
    then some "Unsupported Capability"
    else if eqb sub 11
    then some "Role Mismatch"
    else none

update_names : ℕ → Option String
update_names sub =
    if eqb sub 1
    then some "Malformed Attribute List"
    else if eqb sub 2
    then some "Unrecognized Well-known Attribute"
    else if eqb sub 3
    then some "Missing Well-known Attribute"
    else if eqb sub 4
    then some "Attribute Flags Error"
    else if eqb sub 5
    then some "Attribute Length Error"
    else if eqb sub 6
    then some "Invalid ORIGIN Attribute"
    else if eqb sub 8
    then some "Invalid NEXT_HOP Attribute"
    else if eqb sub 9
    then some "Optional Attribute Error"
    else if eqb sub 10
    then some "Invalid Network Field"
    else if eqb sub 11
    then some "Malformed AS_PATH"
    else none

cease_names : ℕ → Option String
cease_names sub =
    if eqb sub 1
    then some "Maximum Number of Prefixes Reached"
    else if eqb sub 2
    then some "Administrative Shutdown"
    else if eqb sub 3
    then some "Peer De-configured"
    else if eqb sub 4
    then some "Administrative Reset"
    else if eqb sub 5
    then some "Connection Rejected"
    else if eqb sub 6
    then some "Other Configuration Change"
    else if eqb sub 7
    then some "Connection Collision Resolution"
    else if eqb sub 8
    then some "Out of Resources"
    else none

-- `_SUBCODE_NAMES`
unfoldable pub subcode_names : ℕ → ℕ → Option String
unfolding header_names open_names update_names cease_names
subcode_names code sub =
    if eqb code 1
    then header_names sub
    else if eqb code 2
    then open_names sub
    else if eqb code 3
    then update_names sub
    else if eqb code 6
    then cease_names sub
    else if eqb code 7
    then (if eqb sub 1 then some "Invalid Message Length" else none)
    else none

abbrev known_or : Option String → String → String
known_or none numeric = numeric
known_or (some name) numeric = name

abbrev with_subcode : String → ℕ → Option String → String
with_subcode name subcode (some sub) = name ++ ("/" ++ sub)
with_subcode name subcode none =
    if eqb subcode 0 then name else name ++ ("/" ++ ("Subcode " ++ decimal subcode))

-- `notify_name`; a missing subcode names the code alone.
unfoldable pub notify_name : ℕ → Option ℕ → String
unfolding code_names subcode_names
notify_name code none = known_or (code_names code) ("Error Code " ++ decimal code)
notify_name code (some subcode) =
    with_subcode (known_or (code_names code) ("Error Code " ++ decimal code)) subcode
      (subcode_names code subcode)
