-- ===== src/Wire/Keys.antt =====
-- `sort.Strings` on the keys of a map, each key with what it carries.
pub mod Laws
use ferricstore_go.Base.{List, [], ◌∷◌, if◌then◌else◌}
use ferricstore_go.Base.Bytes.{Bytes, bytes_lt}

module _ {ℓ} {A : Type ℓ} where
  unfoldable pub insert_key : Bytes → A → List (Bytes × A) → List (Bytes × A)
  insert_key k a [] = (k, a) ∷ []
  insert_key k a ((j, b) ∷ es) =
      if bytes_lt j k then (j, b) ∷ insert_key k a es else (k, a) ∷ (j, b) ∷ es

  unfoldable pub sort_keys : List (Bytes × A) → List (Bytes × A)
  sort_keys [] = []
  sort_keys ((k, a) ∷ es) = insert_key k a (sort_keys es)

-- The same keys with other values.
abbrev pub map_values {ℓ κ} :
    {A : Type ℓ} {B : Type κ} → (A → B) → List (Bytes × A) → List (Bytes × B)
map_values f [] = []
map_values f ((k, a) ∷ es) = (k, f a) ∷ map_values f es
