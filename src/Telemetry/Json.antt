-- ===== src/Telemetry/Json.antt =====
-- What encoding/json decodes a report into (internal/telemetry/report.go): `any`, `[]any` and
-- `map[string]any`. A Go map is a list of members in which the first one with a key counts.
use bambu_timelapse.Prelude.{
  ◌≡◌, refl, Bool, Option, none, some, List, [], ◌∷◌, arith, if◌then◌else◌,
}
use bambu_timelapse.Go.Text.{Text, text_eq, text_eq_iff, text_mem}

mutual
  pub data Value (A : Type 0) : Type 0 where
    null : Value A
    bool : Bool → Value A
    num : A → Value A
    str : Text → Value A
    arr : Items A → Value A
    obj : Members A → Value A

  pub data Items (A : Type 0) : Type 0 where
    nil : Items A
    cons : Value A → Items A → Items A

  pub data Members (A : Type 0) : Type 0 where
    end : Members A
    member : Text → Value A → Members A → Members A

module _ {A : Type 0} where
  -- m[k]
  unfoldable pub lookup : Text → Members A → Option (Value A)
  lookup k end = none
  lookup k (member j v m) = if text_eq j k then some v else lookup k m

  -- m[k] = v
  unfoldable pub insert : Text → Value A → Members A → Members A
  insert k v end = member k v end
  insert k v (member j w m) = if text_eq j k then member k v m else member j w (insert k v m)

  -- delete(m, k)
  unfoldable pub delete : Text → Members A → Members A
  delete k end = end
  delete k (member j v m) = let rest = delete k m in if text_eq j k then rest else member j v rest

  pub lookup-insert :
      (k j : Text) (v : Value A) (m : Members A)
      → lookup j (insert k v m) ≡ (if text_eq k j then some v else lookup j m)
  unfolding lookup insert
  lookup-insert k j v end = refl
  lookup-insert k j v (member i w m) =
      ground (arith, text_eq_iff k j, text_eq_iff i k, text_eq_iff i j, lookup-insert k j v m)

  pub lookup-delete :
      (k j : Text) (m : Members A)
      → lookup j (delete k m) ≡ (if text_eq k j then none else lookup j m)
  unfolding lookup delete
  lookup-delete k j end = ground arith
  lookup-delete k j (member i w m) =
      ground (arith, text_eq_iff k j, text_eq_iff i k, text_eq_iff i j, lookup-delete k j m)

abbrev pub or_else {ℓ} : {B : Type ℓ} → Option B → Option B → Option B
or_else none o = o
or_else (some v) o = some v

module _ {A : Type 0} where
  -- `for _, key := range keys { delete(m, key) }`
  unfoldable pub delete_all : List Text → Members A → Members A
  delete_all [] m = m
  delete_all (k ∷ ks) m = delete_all ks (delete k m)

  -- `for k, v := range section`: the order of a Go map is not specified, and keys are unique.
  unfoldable pub insert_all : Members A → Members A → Members A
  insert_all end m = m
  insert_all (member k v rest) m = insert k v (insert_all rest m)

  pub lookup-delete_all :
      (k : Text) (ks : List Text) (m : Members A)
      → lookup k (delete_all ks m) ≡ (if text_mem k ks then none else lookup k m)
  unfolding delete_all text_mem
  lookup-delete_all k [] m = refl
  lookup-delete_all k (j ∷ ks) m =
      ground (arith, lookup-delete_all k ks (delete j m), lookup-delete j k m)

  pub lookup-insert_all :
      (k : Text) (section m : Members A)
      → lookup k (insert_all section m) ≡ or_else (lookup k section) (lookup k m)
  unfolding insert_all lookup
  lookup-insert_all k end m = refl
  lookup-insert_all k (member j v rest) m =
      ground (arith, lookup-insert_all k rest m, lookup-insert j k v (insert_all rest m))
