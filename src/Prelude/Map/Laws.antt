-- ===== src/Prelude/Map/Laws.antt =====
-- Laws of the ordered map: lookups after writes, and the order of the keys.
use Prim.Native.Nat.{ℕ, ◌<◌}
use mathlib.Core.Path.{◌≡◌, refl}
use mathlib.Core.Logic.{◌≢◌, ◌⊎◌, inl, inr}
use mathlib.Core.List.{List, [], ◌∷◌}
use mathlib.Core.Option
use mathlib.Core.Option.{Option, none, some}
use native.Mathlib.Omega.{arith}
use integration_server.Prelude.Tests.{◌==◌, if◌then◌else◌}
use integration_server.Prelude.Lists.{Elem, All}
use integration_server.Prelude.Map.{
  Map, find, assign, insert, erase, update, keys, Above, IsOrdered,
}

module _ {V : Type 0} where
  pub find-update :
      (j k : ℕ) (f : V → V) (m : Map V)
      → find j (update k f m) ≡ (if j == k then Option.map f (find j m) else find j m)
  unfolding find update
  find-update j k f [] = ground arith
  find-update j k f ((i, v) ∷ m) = ground (arith, find-update j k f m)

  pub keys-update : (k : ℕ) (f : V → V) (m : Map V) → keys (update k f m) ≡ keys m
  unfolding update
  keys-update k f [] = refl
  keys-update k f ((i, v) ∷ m) = ground (arith, keys-update k f m)

  Above-trans : {a b : ℕ} (m : Map V) → a < b → Above b m → Above a m
  Above-trans [] h g = tt
  Above-trans {a} {b} ((k, v) ∷ m) h g = (omega arith, Above-trans {a = a} {b = b} m h g.1)

  -- A key at or below a bound of all keys is missing.
  pub find-Above : (k n : ℕ) (m : Map V) → Above n m → k < n ⊎ (k ≡ n) → find k m ≡ none
  unfolding find
  find-Above k n [] g h = refl
  find-Above k n ((j, v) ∷ m) g h = ground (arith, find-Above k n m g.1)

  pub find-assign :
      (j k : ℕ) (v : V) (m : Map V)
      → IsOrdered m
      → find j (assign k v m) ≡ (if j == k then some v else find j m)
  unfolding find assign
  find-assign j k v [] o = ground arith
  find-assign j k v ((i, w) ∷ m) o = ground (arith, find-assign j k v m o.1, find-Above j i m o.0)

  pub find-assign_self : (k : ℕ) (v : V) (m : Map V) → find k (assign k v m) ≡ some v
  unfolding find assign
  find-assign_self k v [] = ground arith
  find-assign_self k v ((i, w) ∷ m) = ground (arith, find-assign_self k v m)

  pub find-erase :
      (j k : ℕ) (m : Map V) → IsOrdered m → find j (erase k m) ≡ (if j == k then none else find j m)
  unfolding find erase
  find-erase j k [] o = ground arith
  find-erase j k ((i, w) ∷ m) o = ground (arith, find-erase j k m o.1, find-Above j i m o.0)

  Above-assign : (n k : ℕ) (v : V) (m : Map V) → n < k → Above n m → Above n (assign k v m)
  unfolding assign
  Above-assign n k v [] h g = (h, tt)
  Above-assign n k v ((i, w) ∷ m) h g = ground (arith, Above-assign n k v m h g.1)

  pub assign-IsOrdered : (k : ℕ) (v : V) (m : Map V) → IsOrdered m → IsOrdered (assign k v m)
  unfolding assign
  assign-IsOrdered k v [] o = (tt, tt)
  assign-IsOrdered k v ((i, w) ∷ m) o =
      ground
        (arith, assign-IsOrdered k v m o.1, Above-assign i k v m, Above-trans {a = k} {b = i} m)

  Above-erase : (n k : ℕ) (m : Map V) → Above n m → Above n (erase k m)
  unfolding erase
  Above-erase n k [] g = tt
  Above-erase n k ((i, w) ∷ m) g = ground (arith, Above-erase n k m g.1)

  pub erase-IsOrdered : (k : ℕ) (m : Map V) → IsOrdered m → IsOrdered (erase k m)
  unfolding erase
  erase-IsOrdered k [] o = tt
  erase-IsOrdered k ((i, w) ∷ m) o = ground (arith, erase-IsOrdered k m o.1, Above-erase i k m o.0)

  Above-update : (n k : ℕ) (f : V → V) (m : Map V) → Above n m → Above n (update k f m)
  unfolding update
  Above-update n k f [] g = tt
  Above-update n k f ((i, w) ∷ m) g = ground (arith, Above-update n k f m g.1)

  pub update-IsOrdered : (k : ℕ) (f : V → V) (m : Map V) → IsOrdered m → IsOrdered (update k f m)
  unfolding update
  update-IsOrdered k f [] o = tt
  update-IsOrdered k f ((i, w) ∷ m) o =
      ground (arith, update-IsOrdered k f m o.1, Above-update i k f m o.0)

  pub insert-IsOrdered : (k : ℕ) (v : V) (m : Map V) → IsOrdered m → IsOrdered (insert k v m)
  unfolding insert
  insert-IsOrdered k v m o = ground (arith, assign-IsOrdered k v m o)

  pub find-insert :
      (j k : ℕ) (v : V) (m : Map V)
      → IsOrdered m
      → find k m ≡ none
      → find j (insert k v m) ≡ (if j == k then some v else find j m)
  unfolding insert
  find-insert j k v m o h = ground (arith, find-assign j k v m o)

  -- What a lookup finds is an entry of the list, and with ordered keys the other way round.
  pub find-Elem : (k : ℕ) (v : V) (m : Map V) → find k m ≡ some v → Elem (k, v) m
  unfolding find
  find-Elem k v [] h = cc
  find-Elem k v ((j, w) ∷ m) h = ground (arith, find-Elem k v m)

  pub Above-Elem : (n k : ℕ) (v : V) (m : Map V) → Above n m → Elem (k, v) m → n < k
  Above-Elem n k v [] g e = absurd e
  Above-Elem n k v ((j, w) ∷ m) g (inl e) = ground arith
  Above-Elem n k v ((j, w) ∷ m) g (inr e) = Above-Elem n k v m g.1 e

  pub find_of_Elem : (k : ℕ) (v : V) (m : Map V) → IsOrdered m → Elem (k, v) m → find k m ≡ some v
  unfolding find
  find_of_Elem k v [] o e = absurd e
  find_of_Elem k v ((j, w) ∷ m) o (inl e) = ground arith
  find_of_Elem k v ((j, w) ∷ m) o (inr e) =
      ground (arith, find_of_Elem k v m o.1 e, Above-Elem j k v m o.0 e)

abbrev pub Distinct : List ℕ → Type 0
Distinct [] = Unit
Distinct (k ∷ ks) = All (λ j. k ≢ j) ks × Distinct ks

module _ {V : Type 0} where
  Above-ne : (n : ℕ) (m : Map V) → Above n m → All (λ j. n ≢ j) (keys m)
  Above-ne n [] g = tt
  Above-ne n ((k, v) ∷ m) g = (omega arith, Above-ne n m g.1)

  -- The keys of an ordered map are pairwise different.
  pub keys-Distinct : (m : Map V) → IsOrdered m → Distinct (keys m)
  keys-Distinct [] o = tt
  keys-Distinct ((k, v) ∷ m) o = (Above-ne k m o.0, keys-Distinct m o.1)

  pub find-keys : (k : ℕ) (v : V) (m : Map V) → find k m ≡ some v → Elem k (keys m)
  unfolding find
  find-keys k v [] h = cc
  find-keys k v ((j, w) ∷ m) h = ground (arith, find-keys k v m)
