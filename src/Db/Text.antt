-- ===== src/Db/Text.antt =====
-- std::string and char buffers as lists of bytes.
use Prim.Native.Char.{code}
use Prim.Native.String.{String}
use integration_server.Prelude.{
  ℕ, ◌≡◌, refl, subst, Bool, true, false, ◌&&◌, ◌||◌, List, [], ◌∷◌, Option, none, some, ◌==◌,
  if◌then◌else◌, arith,
}

abbrev pub Text : Type 0
Text = List ℕ

abbrev pub codes : String → Text
codes String.[] = []
codes (String.◌∷◌ c s) = code c ∷ codes s

unfoldable pub same_text : Text → Text → Bool
same_text [] [] = true
same_text [] (y ∷ ys) = false
same_text (x ∷ xs) [] = false
same_text (x ∷ xs) (y ∷ ys) = (x == y) && same_text xs ys

unfoldable pub has_prefix : Text → Text → Bool
has_prefix [] t = true
has_prefix (x ∷ xs) [] = false
has_prefix (x ∷ xs) (y ∷ ys) = (x == y) && has_prefix xs ys

-- `t.find(word) != std::string::npos`
unfoldable pub contains : Text → Text → Bool
contains word [] = has_prefix word []
contains word (y ∷ ys) = has_prefix word (y ∷ ys) || contains word ys

pub same_text_refl : (t : Text) → same_text t t ≡ true
unfolding same_text
same_text_refl [] = refl
same_text_refl (x ∷ xs) = ground (arith, same_text_refl xs)

pub same_text_eq : (s t : Text) → same_text s t ≡ true → s ≡ t
unfolding same_text
same_text_eq [] [] e = refl
same_text_eq [] (y ∷ ys) e = cc
same_text_eq (x ∷ xs) [] e = cc
same_text_eq (x ∷ xs) (y ∷ ys) e = ground (arith, e, same_text_eq xs ys)

pub same_text_iff : (s t : Text) → (same_text s t ≡ true → s ≡ t) × (s ≡ t → same_text s t ≡ true)
same_text_iff s t = (same_text_eq s t, λ e. subst (λ u. same_text s u ≡ true) e (same_text_refl s))

-- std::map with text keys, of which only lookups are used.
module _ {V : Type 0} where
  unfoldable pub lookup : Text → List (Text × V) → Option V
  lookup k [] = none
  lookup k ((j, v) ∷ m) = if same_text j k then some v else lookup k m

  -- `m[k] = v`
  unfoldable pub store : Text → V → List (Text × V) → List (Text × V)
  store k v [] = (k, v) ∷ []
  store k v ((j, w) ∷ m) = if same_text j k then (j, v) ∷ m else (j, w) ∷ store k v m

  pub lookup-store_self : (k : Text) (v : V) (m : List (Text × V)) → lookup k (store k v m) ≡ some v
  unfolding lookup store
  lookup-store_self k v [] = ground (arith, same_text_refl k)
  lookup-store_self k v ((j, w) ∷ m) = ground (arith, lookup-store_self k v m)

  pub lookup-store :
      (j k : Text) (v : V) (m : List (Text × V))
      → lookup j (store k v m) ≡ (if same_text k j then some v else lookup j m)
  unfolding lookup store
  lookup-store j k v [] = refl
  lookup-store j k v ((i, w) ∷ m) =
      ground (arith, same_text_iff k j, same_text_iff i k, same_text_iff i j, lookup-store j k v m)
