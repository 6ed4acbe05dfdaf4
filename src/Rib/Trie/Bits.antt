-- ===== src/Rib/Trie/Bits.antt =====
-- packets/routing/rtengine/rib/prefix.pxd: the operations on addresses that the trie is built on. An
-- address is its bits, most significant first; a prefix is its significant bits, so that its length
-- is the length of the list.
use packets.Base.{
  ℕ, zero, suc, ◌/◌, ◌%◌, ◌≡◌, refl, ap, Bool, true, false, not, List, [], ◌∷◌, ◌++◌, length,
  length-append, ◌&&◌, if◌then◌else◌, leb, eqb, arith,
}

abbrev pub Bits : Type 0
Bits = List Bool

abbrev pub same_bit : Bool → Bool → Bool
same_bit true b = b
same_bit false b = not b

-- The bits of a packed address, the most significant of each byte first.
abbrev bit_of : ℕ → ℕ → Bool
bit_of b weight = eqb (b / weight % 2) 1

abbrev pub bits_of : List ℕ → Bits
bits_of [] = []
bits_of (b ∷ bs) =
    bit_of b 128
    ∷ bit_of b 64
    ∷ bit_of b 32
    ∷ bit_of b 16
    ∷ bit_of b 8
    ∷ bit_of b 4
    ∷ bit_of b 2
    ∷ bit_of b 1
    ∷ bits_of bs

-- `pfx_match` of a prefix with an address that is at least as long
unfoldable pub pfx_match : Bits → Bits → Bool
pfx_match [] addr = true
pfx_match (b ∷ net) [] = false
pfx_match (b ∷ net) (c ∷ addr) = same_bit b c && pfx_match net addr

-- `pfx_bit`
unfoldable pub pfx_bit : Bits → ℕ → Bool
pfx_bit [] pos = false
pfx_bit (b ∷ addr) zero = b
pfx_bit (b ∷ addr) (suc pos) = pfx_bit addr pos

-- `pfx_common_bits`, of two prefixes at most the length of the shorter
unfoldable pub pfx_common_bits : Bits → Bits → ℕ
pfx_common_bits [] b = 0
pfx_common_bits (x ∷ a) [] = 0
pfx_common_bits (x ∷ a) (y ∷ b) = if same_bit x y then suc (pfx_common_bits a b) else 0

abbrev pub take : ℕ → Bits → Bits
take zero bits = []
take (suc n) [] = []
take (suc n) (b ∷ bits) = b ∷ take n bits

-- The test of every descent: `n.plen <= plen` and `pfx_match(n.addr, n.plen, addr)`
unfoldable pub covers : Bits → Bits → Bool
unfolding pfx_match
covers net addr = leb (length net) (length addr) && pfx_match net addr

pub match-append : (k s : Bits) → pfx_match k (k ++ s) ≡ true
unfolding pfx_match
match-append [] s = refl
match-append (true ∷ k) s = match-append k s
match-append (false ∷ k) s = match-append k s

pub bit-append : (k s : Bits) (b : Bool) → pfx_bit (k ++ b ∷ s) (length k) ≡ b
unfolding pfx_bit
bit-append [] s b = refl
bit-append (x ∷ k) s b = bit-append k s b

pub take-append : (k s : Bits) → take (length k) (k ++ s) ≡ k
take-append [] s = refl
take-append (x ∷ k) s = ap (λ t. x ∷ t) (take-append k s)

pub common-above : (q s : Bits) → pfx_common_bits (q ++ s) q ≡ length q
unfolding pfx_common_bits
common-above [] [] = refl
common-above [] (b ∷ s) = refl
common-above (true ∷ q) s = ap suc (common-above q s)
common-above (false ∷ q) s = ap suc (common-above q s)

pub common-apart :
    (c s t : Bits) (b : Bool) → pfx_common_bits (c ++ b ∷ s) (c ++ not b ∷ t) ≡ length c
unfolding pfx_common_bits
common-apart [] s t true = refl
common-apart [] s t false = refl
common-apart (true ∷ c) s t b = ap suc (common-apart c s t b)
common-apart (false ∷ c) s t b = ap suc (common-apart c s t b)

pub match-apart : (c s t : Bits) (b : Bool) → pfx_match (c ++ b ∷ s) (c ++ not b ∷ t) ≡ false
unfolding pfx_match
match-apart [] s t true = refl
match-apart [] s t false = refl
match-apart (true ∷ c) s t b = match-apart c s t b
match-apart (false ∷ c) s t b = match-apart c s t b

pub covers-append : (k s : Bits) → covers k (k ++ s) ≡ true
unfolding covers
covers-append k s = ground (arith, match-append k s, length-append k s)

pub covers-above : (q s : Bits) (b : Bool) → covers (q ++ b ∷ s) q ≡ false
unfolding covers
covers-above q s b = ground (arith, length-append q (b ∷ s))

pub covers-apart : (c s t : Bits) (b : Bool) → covers (c ++ b ∷ s) (c ++ not b ∷ t) ≡ false
unfolding covers
covers-apart c s t b = ground (arith, match-apart c s t b)
