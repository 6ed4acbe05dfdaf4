-- ===== src/Rib/Trie/Node.antt =====
-- packets/routing/rtengine/rib/trie.pyx: the nodes and the searches. A node is a value; its parent
-- pointer is the path of the recursion.
use packets.Base.{min, Bool, true, false, Option, none, some, length, eqb, if◌then◌else◌}
use packets.Rib.Trie.Bits.{Bits, pfx_bit, pfx_common_bits, covers, take}

-- A `TrieNode` with its subtrees, `child[0]` first; `nil` is NULL, and glue has no value.
pub data Node {ℓ} (V : Type ℓ) : Type ℓ where
  nil : Node V
  node : Bits → Option V → Node V → Node V → Node V

module _ {ℓ} {V : Type ℓ} where
  -- `node_exact`, with the value of the node
  unfoldable pub node_exact : Node V → Bits → Option V
  node_exact nil q = none
  node_exact (node k v l r) q =
      let below : Option V = elim (pfx_bit q (length k)) [
        | false ↦ node_exact l q
        | true ↦ node_exact r q
      ] in
      if covers k q then (if eqb (length k) (length q) then v else below) else none

  -- `if n.is_real: best = n`
  abbrev pub better : Bits → Option V → Option (Bits × V) → Option (Bits × V)
  better k none best = best
  better k (some v) best = some (k, v)

  -- `node_lpm`; the first argument is `best`.
  unfoldable pub node_lpm : Option (Bits × V) → Node V → Bits → Option (Bits × V)
  node_lpm best nil q = best
  node_lpm best (node k v l r) q =
      let below : Option (Bits × V) = elim (pfx_bit q (length k)) [
        | false ↦ node_lpm (better k v best) l q
        | true ↦ node_lpm (better k v best) r q
      ] in
      if covers k q then (if eqb (length k) (length q) then better k v best else below) else best

  -- A node with one subtree, in the place that the bit says.
  abbrev pub hang : Bits → Option V → Bool → Node V → Node V
  hang k v false t = node k v t nil
  hang k v true t = node k v nil t

  -- A node with two subtrees, the first in the place that the bit says.
  abbrev pub fork : Bits → Bool → Node V → Node V → Node V
  fork k false t u = node k none t u
  fork k true t u = node k none u t

  -- `node_intern` where a node is in the way: `fresh` takes its place, or both go under glue.
  unfoldable pub split : Bits → Node V → Bits → Option V → Node V
  split k n q w =
      let common = min (min (pfx_common_bits k q) (length k)) (length q) in
      if eqb common (length q)
      then hang q w (pfx_bit k (length q)) n
      else fork (take common k) (pfx_bit q common) (node q w nil nil) n

  -- `node_intern`; `change` is what the caller does to the value of the node that is returned.
  unfoldable pub node_intern : (Option V → Option V) → Node V → Bits → Node V
  node_intern change nil q = node q (change none) nil nil
  node_intern change (node k v l r) q =
      let below : Node V = elim (pfx_bit q (length k)) [
        | false ↦ node k v (node_intern change l q) r
        | true ↦ node k v l (node_intern change r q)
      ] in
      if covers k q
      then (if eqb (length k) (length q) then node k (change v) l r else below)
      else split k (node k v l r) q (change none)

  abbrev pub is_nil : Node V → Bool
  is_nil nil = true
  is_nil (node k v l r) = false

  -- The body of the loop of `_prune`, at one node.
  unfoldable pub prune : Bits → Option V → Node V → Node V → Node V
  prune k (some v) l r = node k (some v) l r
  prune k none nil r = r
  prune k none (node lk lv ll lr) nil = node lk lv ll lr
  prune k none (node lk lv ll lr) (node rk rv rl rr) =
      node k none (node lk lv ll lr) (node rk rv rl rr)

  -- The loop goes on to the parent only if the node is gone with nothing in its place.
  abbrev pub prune_up : Bool → Bits → Option V → Node V → Node V → Node V
  prune_up gone k v l r = if gone then prune k v l r else node k v l r

  -- `clear_value` at the node of a prefix that is stored, with `_prune`
  unfoldable pub clear_value : Node V → Bits → Node V
  clear_value nil q = nil
  clear_value (node k v l r) q =
      let below : Node V = elim (pfx_bit q (length k)) [
        | false ↦ let l' = clear_value l q in prune_up (is_nil l') k v l' r
        | true ↦ let r' = clear_value r q in prune_up (is_nil r') k v l r'
      ] in
      if covers k q
      then (if eqb (length k) (length q) then prune k none l r else below)
      else node k v l r
