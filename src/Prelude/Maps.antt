-- ===== src/Prelude/Maps.antt =====
-- A JavaScript `Map` with text keys: its entries in the order of their insertion.
use mathlib.Core.Path.{◌≡◌, refl}
use mathlib.Core.Option.{Option, none, some}
use mathlib.Core.List.{List, [], ◌∷◌}
use native.Mathlib.Omega.{arith}
use Prim.Native.String.{String}
use text.Mathlib.TextEquality.{eq_iff}
use qlerify_live.Prelude.Tests.{if◌then◌else◌}
use qlerify_live.Prelude.Equality.{◌==◌, string_eq}

abbrev pub Map {ℓ} : Type ℓ → Type ℓ
Map V = List (String × V)

module _ {ℓ} {V : Type ℓ} where
  unfoldable pub get : Map V → String → Option V
  get [] key = none
  get ((k, v) ∷ entries) key = if k == key then some v else get entries key

  -- A key that is there keeps its place.
  unfoldable pub put : Map V → String → V → Map V
  put [] key value = (key, value) ∷ []
  put ((k, v) ∷ entries) key value =
      if k == key then (k, value) ∷ entries else (k, v) ∷ put entries key value

  unfoldable pub delete : Map V → String → Map V
  delete [] key = []
  delete ((k, v) ∷ entries) key =
      if k == key then delete entries key else (k, v) ∷ delete entries key

  pub get-put :
      (m : Map V) (key : String) (value : V) (other : String)
      → get (put m key value) other ≡ (if key == other then some value else get m other)
  unfolding get put
  get-put [] key value other = refl
  get-put ((k, v) ∷ m) key value other =
      ground (arith, eq_iff k key, eq_iff k other, eq_iff key other, get-put m key value other)

  pub get-delete :
      (m : Map V) (key other : String)
      → get (delete m key) other ≡ (if key == other then none else get m other)
  unfolding get delete
  get-delete [] key other = ground arith
  get-delete ((k, v) ∷ m) key other =
      ground (arith, eq_iff k key, eq_iff k other, eq_iff key other, get-delete m key other)
