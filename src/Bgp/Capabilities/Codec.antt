-- ===== src/Bgp/Capabilities/Codec.antt =====
-- packets/routing/rtengine/plugins/bgp/capabilities.py: the encoders and decoders of capability
-- values. A `ValueError` is `none`.
use packets.Base.{
  ℕ, ◌+◌, ◌*◌, ◌/◌, ◌%◌, Bool, true, ◌&&◌, ◌||◌, Option, none, some, List, [], ◌∷◌, ◌++◌, ◌≡◌, refl,
  ap, ◌∙◌, if◌then◌else◌, eqb, leb, arith,
}
use packets.Bgp.Capabilities.Families.{Family}

abbrev pub Bytes : Type 0
Bytes = List ℕ

-- A family with its direction.
abbrev pub Record : Type 0
Record = Family × ℕ

-- `_ST_U16.pack` and the first field of `_ST_MP_EXT.pack` and `_ST_ADD_PATH.pack`
abbrev pub pack_u16 : ℕ → Bytes → Bytes
pack_u16 n rest = n / 256 ∷ n % 256 ∷ rest

abbrev pub unpack_u16 : ℕ → ℕ → ℕ
unpack_u16 a b = a * 256 + b

-- `_ST_U32.pack`
abbrev pub pack_u32 : ℕ → Bytes
pack_u32 n = n / 16777216 ∷ n / 65536 % 256 ∷ n / 256 % 256 ∷ n % 256 ∷ []

abbrev pub unpack_u32 : ℕ → ℕ → ℕ → ℕ → ℕ
unpack_u32 a b c d = ((a * 256 + b) * 256 + c) * 256 + d

abbrev pub fits : Family → Bool
fits (afi, safi) = leb afi 65535 && leb safi 255

unfoldable pub encode_mp_ext : Family → Option Bytes
encode_mp_ext (afi, safi) = if fits (afi, safi) then some (pack_u16 afi (0 ∷ safi ∷ [])) else none

unfoldable pub encode_as4 : ℕ → Option Bytes
encode_as4 asn = if leb asn 4294967295 then some (pack_u32 asn) else none

-- `direction in _ADD_PATH_NAMES`
abbrev pub is_direction : ℕ → Bool
is_direction d = eqb d 1 || (eqb d 2 || eqb d 3)

abbrev pub prepend : Bytes → Option Bytes → Option Bytes
prepend bytes none = none
prepend bytes (some rest) = some (bytes ++ rest)

unfoldable pub encode_add_path : List Record → Option Bytes
encode_add_path [] = some []
encode_add_path (((afi, safi), direction) ∷ pairs) =
    let rest = encode_add_path pairs in
    if fits (afi, safi) && is_direction direction
    then prepend (pack_u16 afi (safi ∷ direction ∷ [])) rest
    else none

-- `(flags << 12) | restart_time`, which are added since the time has twelve bits
unfoldable pub encode_graceful_restart : ℕ → ℕ → Option Bytes
encode_graceful_restart restart_time flags =
    if leb restart_time 4095 && leb flags 15
    then some (pack_u16 (flags * 4096 + restart_time) [])
    else none

unfoldable pub decode_mp_ext : Bytes → Option Family
decode_mp_ext (a ∷ b ∷ reserved ∷ safi ∷ rest) = some (unpack_u16 a b, safi)
decode_mp_ext (a ∷ b ∷ c ∷ []) = none
decode_mp_ext (a ∷ b ∷ []) = none
decode_mp_ext (a ∷ []) = none
decode_mp_ext [] = none

unfoldable pub decode_as4 : Bytes → Option ℕ
decode_as4 (a ∷ b ∷ c ∷ d ∷ rest) = some (unpack_u32 a b c d)
decode_as4 (a ∷ b ∷ c ∷ []) = none
decode_as4 (a ∷ b ∷ []) = none
decode_as4 (a ∷ []) = none
decode_as4 [] = none

unfoldable pub decode_add_path : Bytes → List Record
decode_add_path (a ∷ b ∷ safi ∷ direction ∷ rest) =
    let records = decode_add_path rest in
    if is_direction direction then ((unpack_u16 a b, safi), direction) ∷ records else records
decode_add_path (a ∷ b ∷ c ∷ []) = []
decode_add_path (a ∷ b ∷ []) = []
decode_add_path (a ∷ []) = []
decode_add_path [] = []

-- The restart time in the value of a Graceful Restart capability.
unfoldable pub decode_restart : Bytes → Option ℕ
decode_restart (a ∷ b ∷ rest) = some (unpack_u16 a b % 4096)
decode_restart (a ∷ []) = none
decode_restart [] = none

pub u16_lem : (n : ℕ) → unpack_u16 (n / 256) (n % 256) ≡ n
u16_lem n = omega arith

pub u32_lem : (n : ℕ) → unpack_u32 (n / 16777216) (n / 65536 % 256) (n / 256 % 256) (n % 256) ≡ n
u32_lem n = omega arith

pub decode-encode_mp_ext :
    (f : Family)
    → fits f ≡ true
    → (bytes : Bytes) × (encode_mp_ext f ≡ some bytes) × (decode_mp_ext bytes ≡ some f)
unfolding encode_mp_ext decode_mp_ext
decode-encode_mp_ext (afi, safi) e =
    (pack_u16 afi (0 ∷ safi ∷ []), rw e, ap (λ n. some (n, safi)) (u16_lem afi))

pub decode-encode_as4 :
    (asn : ℕ)
    → leb asn 4294967295 ≡ true
    → (bytes : Bytes) × (encode_as4 asn ≡ some bytes) × (decode_as4 bytes ≡ some asn)
unfolding encode_as4 decode_as4
decode-encode_as4 asn e = (pack_u32 asn, rw e, ap some (u32_lem asn))

pub decode-encode_restart :
    (n : ℕ)
    → leb n 4095 ≡ true
    → (bytes : Bytes) × (encode_graceful_restart n 0 ≡ some bytes) × (decode_restart bytes ≡ some n)
unfolding encode_graceful_restart decode_restart
decode-encode_restart n e = (
  pack_u16 (0 * 4096 + n) [],
  rw e refl,
  ap some (ap (λ m. m % 4096) (u16_lem (0 * 4096 + n)) ∙ ground arith),
)

abbrev pub RecordsFit : List Record → Type 0
RecordsFit [] = Unit
RecordsFit ((f, direction) ∷ pairs) =
    (fits f ≡ true) × (is_direction direction ≡ true) × RecordsFit pairs

pub decode-encode_add_path :
    (pairs : List Record)
    → RecordsFit pairs
    → (bytes : Bytes) × (encode_add_path pairs ≡ some bytes) × (decode_add_path bytes ≡ pairs)
unfolding encode_add_path decode_add_path
decode-encode_add_path [] h = ([], refl, refl)
decode-encode_add_path (((afi, safi), direction) ∷ pairs) (f, d, h) =
    let (bytes, e, back) = decode-encode_add_path pairs h in
    (
      pack_u16 afi (safi ∷ direction ∷ bytes),
      rw (f, d, e),
      rw (d, back) (ap (λ n. ((n, safi), direction) ∷ pairs) (u16_lem afi)),
    )
