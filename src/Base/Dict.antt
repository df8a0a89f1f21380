-- ===== src/Base/Dict.antt =====
-- Python's `dict` and `OrderedDict` in insertion order, generic in the keys.
use mathlib.Core.Path.{◌≡◌, refl}
use mathlib.Core.Logic.{inl, inr}
use mathlib.Core.Bool.{Bool, true, false, ◌||◌}
use mathlib.Core.Option.{Option, none, some}
use mathlib.Core.List.{List, [], ◌∷◌}
use native.Mathlib.Omega.{arith}
use niw_pspto_pc.Base.Tests.{Eq, equals, Bool-cases, if◌then◌else◌}

abbrev pub Dict {ℓ} : Type ℓ → Type ℓ → Type ℓ
Dict K V = List (K × V)

module _ {ℓ} {K V : Type ℓ} ⦃e : Eq K⦄ where
  -- `d.get(k)`
  unfoldable pub lookup : K → Dict K V → Option V
  lookup k [] = none
  lookup k ((j, v) ∷ d) = if equals j k then some v else lookup k d

  -- `d[k] = v`: a key that is present keeps its place, a new one goes to the end.
  unfoldable pub insert : K → V → Dict K V → Dict K V
  insert k v [] = (k, v) ∷ []
  insert k v ((j, w) ∷ d) = if equals j k then (j, v) ∷ d else (j, w) ∷ insert k v d

  -- `d.pop(k, None)`
  unfoldable pub remove : K → Dict K V → Dict K V
  remove k [] = []
  remove k ((j, w) ∷ d) = if equals j k then remove k d else (j, w) ∷ remove k d

  pub lookup-insert :
      (k j : K) (v : V) (d : Dict K V)
      → lookup j (insert k v d) ≡ (if equals k j then some v else lookup j d)
  unfolding lookup insert
  lookup-insert k j v [] = refl
  lookup-insert k j v ((i, w) ∷ d) =
      ground (arith, e.beq_iff k j, e.beq_iff i k, e.beq_iff i j, lookup-insert k j v d)

  pub lookup-remove :
      (k j : K) (d : Dict K V) → lookup j (remove k d) ≡ (if equals k j then none else lookup j d)
  unfolding lookup remove
  lookup-remove k j [] = ground arith
  lookup-remove k j ((i, w) ∷ d) =
      ground (arith, e.beq_iff k j, e.beq_iff i k, e.beq_iff i j, lookup-remove k j d)

  -- `k in d`
  abbrev pub has : K → Dict K V → Bool
  has k d = elim (lookup k d) [ none ↦ false | some _ ↦ true ]

  -- No key has two entries.
  abbrev pub IsDistinct : Dict K V → Type ℓ
  IsDistinct [] = Unit
  IsDistinct ((k, v) ∷ d) = (lookup k d ≡ none) × IsDistinct d

  pub insert-IsDistinct : (k : K) (v : V) (d : Dict K V) → IsDistinct d → IsDistinct (insert k v d)
  unfolding insert lookup
  insert-IsDistinct k v [] h = (refl, tt)
  insert-IsDistinct k v ((j, w) ∷ d) h = elim (Bool-cases (equals j k)) [
    | inl same ↦ rw same h
    | inr other ↦ rw other (
      ground (arith, lookup-insert k j v d, e.beq_iff k j, e.beq_iff j k),
      insert-IsDistinct k v d h.1,
    )
  ]

  pub remove-IsDistinct : (k : K) (d : Dict K V) → IsDistinct d → IsDistinct (remove k d)
  unfolding remove lookup
  remove-IsDistinct k [] h = tt
  remove-IsDistinct k ((j, w) ∷ d) h = elim (Bool-cases (equals j k)) [
    | inl same ↦ rw same (remove-IsDistinct k d h.1)
    | inr other ↦ rw other (ground (arith, lookup-remove k j d), remove-IsDistinct k d h.1)
  ]

-- Python's `set`, in some order.
module _ {ℓ} {K : Type ℓ} ⦃e : Eq K⦄ where
  unfoldable pub member : K → List K → Bool
  member k [] = false
  member k (j ∷ s) = equals j k || member k s

  unfoldable pub add : K → List K → List K
  add k [] = k ∷ []
  add k (j ∷ s) = if equals j k then j ∷ s else j ∷ add k s

  unfoldable pub discard : K → List K → List K
  discard k [] = []
  discard k (j ∷ s) = if equals j k then discard k s else j ∷ discard k s

  pub member-add : (k j : K) (s : List K) → member j (add k s) ≡ (equals k j || member j s)
  unfolding member add
  member-add k j [] = ground arith
  member-add k j (i ∷ s) =
      ground (arith, e.beq_iff k j, e.beq_iff i k, e.beq_iff i j, member-add k j s)

  pub member-discard :
      (k j : K) (s : List K) → member j (discard k s) ≡ (if equals k j then false else member j s)
  unfolding member discard
  member-discard k j [] = ground arith
  member-discard k j (i ∷ s) =
      ground (arith, e.beq_iff k j, e.beq_iff i k, e.beq_iff i j, member-discard k j s)
