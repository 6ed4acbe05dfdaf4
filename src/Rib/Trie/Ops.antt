-- ===== src/Rib/Trie/Ops.antt =====
-- packets/routing/rtengine/rib/trie.pyx: `Trie` and its methods. Its counter of nodes is the size of
-- the tree.
use packets.Base.{
  ℕ, ◌+◌, ◌-◌, Bool, true, false, not, Option, none, some, length, eqb, if◌then◌else◌,
}
use packets.Rib.Trie.Bits.{Bits}
use packets.Rib.Trie.Node.{Node, nil, node_exact, node_lpm, node_intern, clear_value}

-- A `Prefix`: its family and its significant bits.
pub record Key : Type 0 where
  pub afi : ℕ
  pub bits : Bits

pub record Trie (V : Type 0) : Type 0 where
  pub root : Node V
  pub afi : ℕ
  pub count : ℕ

-- The `ValueError`s.
pub data TrieError : Type 0 where
  unsupported_family : TrieError
  wrong_family : TrieError
  none_value : TrieError
  wrong_width : TrieError

pub data Result (A : Type 0) : Type 0 where
  ok : A → Result A
  raises : TrieError → Result A

-- `pfx_addr_bits`
abbrev pub addr_bits : ℕ → ℕ
addr_bits afi = if eqb afi 1 then 32 else if eqb afi 2 then 128 else 0

module _ {V : Type 0} where
  -- `__cinit__`
  unfoldable pub new : ℕ → Result (Trie V)
  new afi =
      if eqb (addr_bits afi) 0
      then raises unsupported_family
      else ok (record { root = nil; afi = afi; count = 0 })

  abbrev pub is_none : Option V → Bool
  is_none none = true
  is_none (some v) = false

  abbrev pub store : Trie V → Bits → V → Trie V × Option V
  store t bits value =
      let previous = node_exact t.root bits in
      (
        record t {
          root = node_intern (λ _. some value) t.root bits;
          count = if is_none previous then t.count + 1 else t.count;
        },
        previous,
      )

  abbrev pub store_value : Trie V → Bits → Option V → Result (Trie V × Option V)
  store_value t bits none = raises none_value
  store_value t bits (some value) = ok (store t bits value)

  -- `insert`, with the value that it returns
  unfoldable pub insert : Trie V → Key → Option V → Result (Trie V × Option V)
  insert t p value =
      if not (eqb p.afi t.afi) then raises wrong_family else store_value t p.bits value

  -- `get`
  unfoldable pub get : Trie V → Key → Option V
  get t p = if eqb p.afi t.afi then node_exact t.root p.bits else none

  -- `lpm_entry`, with the prefix as its bits
  unfoldable pub lpm_entry : Trie V → Key → Option (Bits × V)
  lpm_entry t p = if eqb p.afi t.afi then node_lpm none t.root p.bits else none

  abbrev pub value_of : Option (Bits × V) → Option V
  value_of none = none
  value_of (some (p, v)) = some v

  -- `lpm`
  unfoldable pub lpm : Trie V → Key → Option V
  lpm t p = if eqb p.afi t.afi then value_of (node_lpm none t.root p.bits) else none

  -- `lpm_addr`
  unfoldable pub lpm_addr : Trie V → Bits → Result (Option V)
  lpm_addr t addr =
      if eqb (length addr) (addr_bits t.afi)
      then ok (value_of (node_lpm none t.root addr))
      else raises wrong_width

  abbrev pub take_out : Trie V → Bits → Option V → Trie V × Option V
  take_out t bits none = (t, none)
  take_out t bits (some v) =
      (record t { root = clear_value t.root bits; count = t.count - 1 }, some v)

  -- `remove`, with the value that it returns
  unfoldable pub remove : Trie V → Key → Trie V × Option V
  remove t p = if eqb p.afi t.afi then take_out t p.bits (node_exact t.root p.bits) else (t, none)

  -- `clear`
  unfoldable pub clear : Trie V → Trie V
  clear t = record t { root = nil; count = 0 }
