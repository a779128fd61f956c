-- ===== src/Base/Maps.antt =====
-- Sets and maps keyed by byte strings, as lists. They stand for `absl::flat_hash_set` and
-- `absl::flat_hash_map`, of which the source uses only membership, insertion and assignment.
use mathlib.Core.Path.{◌≡◌, refl}
use mathlib.Core.Bool.{Bool, false, ◌||◌}
use mathlib.Core.Option.{Option, none, some}
use mathlib.Core.List.{List, [], ◌∷◌, ◌++◌}
use native.Mathlib.Omega.{arith}
use ctap2_test_tool.Base.Tests.{if◌then◌else◌}
use ctap2_test_tool.Base.ByteStrings.{Bytes, bytes_eq, bytes_eq_iff}

unfoldable pub member : Bytes → List Bytes → Bool
member x [] = false
member x (y ∷ ys) = bytes_eq y x || member x ys

-- `insert` of a set: an element that is there is not added again.
unfoldable pub set_insert : Bytes → List Bytes → List Bytes
unfolding member
set_insert x xs = if member x xs then xs else x ∷ xs

-- `push_back` unless `std::find` finds the element.
unfoldable pub push_new : Bytes → List Bytes → List Bytes
unfolding member
push_new x xs = if member x xs then xs else xs ++ x ∷ []

module _ {V : Type 0} where
  unfoldable pub lookup : Bytes → List (Bytes × V) → Option V
  lookup k [] = none
  lookup k ((j, v) ∷ m) = if bytes_eq j k then some v else lookup k m

  unfoldable pub insert : Bytes → V → List (Bytes × V) → List (Bytes × V)
  insert k v [] = (k, v) ∷ []
  insert k v ((j, w) ∷ m) = if bytes_eq j k then (k, v) ∷ m else (j, w) ∷ insert k v m

  pub lookup-insert :
      (k j : Bytes) (v : V) (m : List (Bytes × V))
      → lookup j (insert k v m) ≡ (if bytes_eq k j then some v else lookup j m)
  unfolding lookup insert
  lookup-insert k j v [] = refl
  lookup-insert k j v ((i, w) ∷ m) =
      ground (arith, bytes_eq_iff k j, bytes_eq_iff i k, bytes_eq_iff i j, lookup-insert k j v m)

pub member-set_insert :
    (x y : Bytes) (xs : List Bytes) → member y (set_insert x xs) ≡ (bytes_eq x y || member y xs)
unfolding set_insert
member-set_insert x y xs = ground (arith, bytes_eq_iff x y)

pub member-append :
    (x : Bytes) (xs ys : List Bytes) → member x (xs ++ ys) ≡ (member x xs || member x ys)
unfolding member
member-append x [] ys = refl
member-append x (y ∷ xs) ys = ground (arith, member-append x xs ys)
