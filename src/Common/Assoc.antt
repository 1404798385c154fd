-- ===== src/Common/Assoc.antt =====
-- The hash containers of the code: an `unordered_map` as an association list, an `unordered_set`
-- as a list without repetitions.
use mathlib.Core.Path.{◌≡◌, refl}
use mathlib.Core.Logic.{inl, inr}
use mathlib.Core.Bool.{Bool, true, false, ◌||◌}
use mathlib.Core.List.{List, [], ◌∷◌}
use mathlib.Core.Option.{Option, none, some}
use native.Mathlib.Omega.{arith}
use key_v_db.Common.Tests.{Eq, ◌==◌, if◌then◌else◌, Bool-cases}

module _ {ℓ κ} {K : Type ℓ} {V : Type κ} ⦃e : Eq K⦄ where
  -- m.find(k)
  unfoldable pub find : K → List (K × V) → Option V
  find k [] = none
  find k ((j, v) ∷ m) = if j == k then some v else find k m

  -- m.erase(k)
  unfoldable pub remove : K → List (K × V) → List (K × V)
  remove k [] = []
  remove k ((j, v) ∷ m) = let rest = remove k m in if j == k then rest else (j, v) ∷ rest

  -- m[k] = v
  unfoldable pub put : K → V → List (K × V) → List (K × V)
  put k v [] = (k, v) ∷ []
  put k v ((j, w) ∷ m) = if j == k then (k, v) ∷ m else (j, w) ∷ put k v m

  pub find-remove :
      (k j : K) (m : List (K × V)) → find j (remove k m) ≡ (if k == j then none else find j m)
  unfolding find remove
  find-remove k j [] = ground arith
  find-remove k j ((i, w) ∷ m) =
      ground (arith, find-remove k j m, e.beq_iff i k, e.beq_iff i j, e.beq_iff k j)

  pub find-put :
      (k j : K) (v : V) (m : List (K × V))
      → find j (put k v m) ≡ (if k == j then some v else find j m)
  unfolding find put
  find-put k j v [] = refl
  find-put k j v ((i, w) ∷ m) =
      ground (arith, find-put k j v m, e.beq_iff i k, e.beq_iff i j, e.beq_iff k j)

module _ {ℓ} {A : Type ℓ} ⦃e : Eq A⦄ where
  -- s.count(a) > 0
  unfoldable pub contains : A → List A → Bool
  contains a [] = false
  contains a (x ∷ xs) = x == a || contains a xs

  -- s.insert(a)
  unfoldable pub insert : A → List A → List A
  insert a xs = if contains a xs then xs else a ∷ xs

  -- s.erase(a)
  unfoldable pub erase : A → List A → List A
  erase a [] = []
  erase a (x ∷ xs) = let rest = erase a xs in if x == a then rest else x ∷ rest

  -- No value stands twice in the list.
  abbrev pub Distinct : List A → Type 0
  Distinct [] = Unit {0}
  Distinct (x ∷ xs) = (contains x xs ≡ false) × Distinct xs

  pub contains-erase :
      (a b : A) (xs : List A) → contains b (erase a xs) ≡ (if a == b then false else contains b xs)
  unfolding contains erase
  contains-erase a b [] = ground arith
  contains-erase a b (x ∷ xs) =
      ground (arith, contains-erase a b xs, e.beq_iff x a, e.beq_iff x b, e.beq_iff a b)

  pub contains-insert :
      (a b : A) (xs : List A) → contains b (insert a xs) ≡ (if a == b then true else contains b xs)
  unfolding contains insert
  contains-insert a b xs = ground (arith, e.beq_iff a b)

  pub insert-Distinct : (a : A) (xs : List A) → Distinct xs → Distinct (insert a xs)
  unfolding insert
  insert-Distinct a xs d = elim (Bool-cases (contains a xs)) [
    | inl h ↦ rw h d
    | inr h ↦ rw h (h, d)
  ]

  pub erase-Distinct : (a : A) (xs : List A) → Distinct xs → Distinct (erase a xs)
  unfolding erase
  erase-Distinct a [] d = tt
  erase-Distinct a (x ∷ xs) d = elim (Bool-cases (x == a)) [
    | inl h ↦ rw h (erase-Distinct a xs d.1)
    | inr h ↦ rw h (ground (arith, contains-erase a x xs), erase-Distinct a xs d.1)
  ]
