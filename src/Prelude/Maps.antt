-- ===== src/Prelude/Maps.antt =====
-- JavaScript's `Map` with string keys: entries in the order in which their keys were first set.
use mathlib.Core.Path.{◌≡◌, refl}
use mathlib.Core.Bool.{Bool, false, ◌||◌}
use mathlib.Core.List.{List, [], ◌∷◌, ◌++◌, map}
use mathlib.Core.Option.{Option, none, some}
use native.Mathlib.Omega.{arith}
use cognitive_runtime.Prelude.Tests.{if◌then◌else◌}
use cognitive_runtime.Prelude.Strings.{Text, text_eq, text_eq_iff, text_eq_refl}

module _ {ℓ} {V : Type ℓ} where
  unfoldable pub get : Text → List (Text × V) → Option V
  get k [] = none
  get k ((j, v) ∷ m) = if text_eq j k then some v else get k m

  unfoldable pub set : Text → V → List (Text × V) → List (Text × V)
  set k v [] = (k, v) ∷ []
  set k v ((j, w) ∷ m) = if text_eq j k then (j, v) ∷ m else (j, w) ∷ set k v m

  unfoldable pub has : Text → List (Text × V) → Bool
  has k [] = false
  has k ((j, v) ∷ m) = text_eq j k || has k m

  abbrev pub keys : List (Text × V) → List Text
  keys m = map (λ e. e.0) m

  pub get-set :
      (k j : Text) (v : V) (m : List (Text × V))
      → get j (set k v m) ≡ (if text_eq k j then some v else get j m)
  unfolding get set
  get-set k j v [] = refl
  get-set k j v ((i, w) ∷ m) =
      ground
        (arith, text_eq_iff k j, text_eq_iff i k, text_eq_iff i j, text_eq_refl k, get-set k j v m)

  pub get-set_self : (k : Text) (v : V) (m : List (Text × V)) → get k (set k v m) ≡ some v
  get-set_self k v m = simp (get-set, text_eq_refl)

-- A `Set` of strings, its members in the order of insertion.
unfoldable pub has_text : Text → List Text → Bool
has_text k [] = false
has_text k (j ∷ s) = text_eq j k || has_text k s

unfoldable pub add_text : Text → List Text → List Text
unfolding has_text
add_text k s = if has_text k s then s else s ++ k ∷ []
