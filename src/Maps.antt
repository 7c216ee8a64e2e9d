-- ===== src/Maps.antt =====
-- Go maps with string keys, as lists of keys and values.
pub mod Laws
use pbo.Common.{
  Bool, true, false, ◌||◌, Option, none, some, List, [], ◌∷◌, if◌then◌else◌, Bytes, map,
}
use pbo.Text.{equal}

module _ {ℓ} {V : Type ℓ} where
  unfoldable pub find : List (Bytes × V) → Bytes → Option V
  find [] key = none
  find ((k, v) ∷ m) key = let rest = find m key in if equal k key then some v else rest

  -- `m[key] = value`
  unfoldable pub put : List (Bytes × V) → Bytes → V → List (Bytes × V)
  put [] key value = (key, value) ∷ []
  put ((k, v) ∷ m) key value =
      let rest = put m key value in if equal k key then (k, value) ∷ m else (k, v) ∷ rest

  -- `delete` of the entries that a loop over the map picks by key and value
  unfoldable pub delete_where : (Bytes → V → Bool) → List (Bytes × V) → List (Bytes × V)
  delete_where picks [] = []
  delete_where picks ((k, v) ∷ m) =
      let rest = delete_where picks m in if picks k v then rest else (k, v) ∷ rest

  -- `delete(m, key)`
  unfoldable pub delete : List (Bytes × V) → Bytes → List (Bytes × V)
  unfolding delete_where
  delete m key = delete_where (λ k v. equal k key) m

  abbrev pub values : List (Bytes × V) → List V
  values = map (λ (e : Bytes × V). e.1)

-- Whether a set of strings has a key.
unfoldable pub has_key : List Bytes → Bytes → Bool
has_key [] key = false
has_key (k ∷ seen) key = equal k key || has_key seen key
