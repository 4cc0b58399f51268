-- ===== src/Prelude/Entries.antt =====
-- Lemmas on the entries of a map: how many there are, and an entry that is put last.
use Prim.Native.Nat.{◌≤◌}
use Prim.Native.String.{String}
use mathlib.Core.Path.{◌≡◌, refl}
use mathlib.Core.Bool.{false}
use mathlib.Core.Option.{none, some}
use mathlib.Core.List.{[], ◌∷◌, ◌++◌}
use native.Mathlib.Omega.{arith}
use text.Mathlib.TextEquality.{eq_iff}
use qlerify_live.Prelude.Equality.{◌==◌, string_eq}
use qlerify_live.Prelude.Lists.{length}
use qlerify_live.Prelude.Maps.{Map, get, put, delete, get-delete}

module _ {ℓ} {V : Type ℓ} where
  pub length-delete : (m : Map V) (k : String) → length (delete m k) ≤ length m
  unfolding delete
  length-delete [] k = omega arith
  length-delete ((x, v) ∷ m) k = ground (arith, length-delete m k)

  pub length-delete_first :
      (k : String) (v : V) (m : Map V) → length (delete ((k, v) ∷ m) k) ≤ length m
  unfolding delete
  length-delete_first k v m = ground (arith, eq_iff k k, length-delete m k)

  pub put-missing : (m : Map V) (k : String) (v : V) → get m k ≡ none → put m k v ≡ m ++ (k, v) ∷ []
  unfolding put get
  put-missing [] k v h = refl
  put-missing ((x, w) ∷ m) k v h = ground (arith, put-missing m k v)

  pub delete-append :
      (m : Map V) (k id : String) (v : V)
      → (id == k) ≡ false
      → delete (m ++ (id, v) ∷ []) k ≡ delete m k ++ (id, v) ∷ []
  unfolding delete
  delete-append [] k id v h = rw h refl
  delete-append ((x, w) ∷ m) k id v h = ground (arith, delete-append m k id v h)

  pub get-append :
      (m : Map V) (id : String) (v : V) → get m id ≡ none → get (m ++ (id, v) ∷ []) id ≡ some v
  unfolding get
  get-append [] id v h = ground (arith, eq_iff id id)
  get-append ((x, w) ∷ m) id v h = ground (arith, get-append m id v)

  pub get-delete_self : (m : Map V) (id : String) → get (delete m id) id ≡ none
  get-delete_self m id = ground (arith, eq_iff id id, get-delete m id id)

  pub other_key :
      (x : String) (w : V) (m : Map V) (id : String)
      → get ((x, w) ∷ m) id ≡ none
      → (id == x) ≡ false
  unfolding get
  other_key x w m id h = ground (arith, eq_iff x id, eq_iff id x, h)
