-- ===== src/Bgp/Attrs/Table.antt =====
-- packets/routing/rtengine/plugins/bgp/attrs.pyx: `AttrTable`, over any attributes with an equality.
use packets.Base.{ℕ, ◌+◌, ◌-◌, Option, none, some, [], if◌then◌else◌, eqb, leb, length, Key}
use packets.Base.Dict.{Dict, get, put, remove}

-- An attribute set: a handle, which stands for the object's identity, and what it holds.
abbrev pub Instance : Type 0 → Type 0
Instance A = ℕ × A

-- `sets` has for what a set holds the instance that is shared and its references.
pub record AttrTable (A : Type 0) : Type 0 where
  pub sets : Dict A (ℕ × ℕ)
  pub hits : ℕ
  pub misses : ℕ
  pub releases : ℕ

abbrev pub new : {A : Type 0} → AttrTable A
new = record { sets = []; hits = 0; misses = 0; releases = 0 }

module _ {A : Type 0} ⦃key : Key A⦄ where
  abbrev pub found_or_new : AttrTable A → Instance A → Option (ℕ × ℕ) → AttrTable A × Instance A
  found_or_new t (h, a) (some (g, refs)) =
      (record t { sets = put a (g, refs + 1) t.sets; hits = t.hits + 1 }, (g, a))
  found_or_new t (h, a) none =
      (record t { sets = put a (h, 1) t.sets; misses = t.misses + 1 }, (h, a))

  abbrev pub intern : AttrTable A → Instance A → AttrTable A × Instance A
  intern t i = found_or_new t i (get i.1 t.sets)

  -- `none` is the result -1.
  abbrev pub release_found : AttrTable A → Instance A → Option (ℕ × ℕ) → AttrTable A × Option ℕ
  release_found t (h, a) none = (t, none)
  release_found t (h, a) (some (g, refs)) =
      if eqb g h
      then (if leb refs 1
          then (record t { sets = remove a t.sets; releases = t.releases + 1 }, some 0)
          else (
            record t { sets = put a (g, refs - 1) t.sets; releases = t.releases + 1 },
            some (refs - 1),
          ))
      else (t, none)

  abbrev pub release : AttrTable A → Instance A → AttrTable A × Option ℕ
  release t i = release_found t i (get i.1 t.sets)

  abbrev pub count : AttrTable A → ℕ
  count t = length t.sets
