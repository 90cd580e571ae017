-- ===== src/Base/Dicts.antt =====
-- A Go map with string keys. The entries stand in the order in which `range` meets them, which
-- the language leaves open; no theorem fixes it.
use Prim.Native.String.{String}
use mathlib.Core.Path.{◌≡◌, refl}
use mathlib.Core.Bool.{Bool, true, false}
use mathlib.Core.Option.{Option, none, some}
use mathlib.Core.List.{List, [], ◌∷◌}
use native.Mathlib.Omega.{arith}
use contact_server.Base.Logic.{if◌then◌else◌}
use contact_server.Base.Text.{◌==◌}
use contact_server.Base.Lists.{has, Distinct}

abbrev pub Dict {ℓ} : Type ℓ → Type ℓ
Dict V = List (String × V)

module _ {ℓ} {V : Type ℓ} where
  unfoldable pub find : Dict V → String → Option V
  find [] k = none
  find ((j, v) ∷ m) k = if j == k then some v else find m k

  -- `m[k] = v`
  unfoldable pub put : String → V → Dict V → Dict V
  put k v [] = (k, v) ∷ []
  put k v ((j, w) ∷ m) = if j == k then (k, v) ∷ m else (j, w) ∷ put k v m

  -- `delete(m, k)`
  unfoldable pub drop_key : String → Dict V → Dict V
  drop_key k [] = []
  drop_key k ((j, v) ∷ m) = let rest = drop_key k m in if j == k then rest else (j, v) ∷ rest

  unfoldable pub keys : Dict V → List String
  keys [] = []
  keys ((j, v) ∷ m) = j ∷ keys m

  abbrev pub is_some : Option V → Bool
  is_some none = false
  is_some (some _) = true

  -- Every key stands once, as in a map.
  abbrev pub IsMap : Dict V → Type 0
  IsMap m = Distinct (keys m)

  pub find-put :
      (k j : String) (v : V) (m : Dict V)
      → find (put k v m) j ≡ (if k == j then some v else find m j)
  unfolding find put
  find-put k j v [] = refl
  find-put k j v ((i, w) ∷ m) = ground (arith, find-put k j v m)

  pub find-drop_key :
      (k j : String) (m : Dict V) → find (drop_key k m) j ≡ (if k == j then none else find m j)
  unfolding find drop_key
  find-drop_key k j [] = ground arith
  find-drop_key k j ((i, w) ∷ m) = ground (arith, find-drop_key k j m)

  pub has-keys : (m : Dict V) (k : String) → has (keys m) k ≡ is_some (find m k)
  unfolding find keys
  has-keys [] k = refl
  has-keys ((i, w) ∷ m) k = ground (arith, has-keys m k)
