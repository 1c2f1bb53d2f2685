-- ===== src/Common/Sort.antt =====
-- Python's `sorted` and `min` with a key: `le` compares the keys, and equal keys keep their order.
use mathlib.Core.Path.{◌≡◌, refl, sym, ap, ◌∙◌, subst}
use mathlib.Core.Logic.{◌⊎◌, inl, inr}
use mathlib.Core.Bool.{Bool, true}
use mathlib.Core.List.{List, [], ◌∷◌, Memᴰ, Permᴰ}
use Prim.Native.Nat.{suc}
use native.Mathlib.Omega.{arith}
use inforsight.Common.Tests.{if◌then◌else◌, Bool-cases}
use inforsight.Common.Lists.{length}
use inforsight.Common.Order.{IsOrder, le_of_not}

module _ {ℓ} {A : Type ℓ} (le : A → A → Bool) where
  unfoldable pub insert : A → List A → List A
  insert x [] = x ∷ []
  insert x (y ∷ ys) = if le x y then x ∷ y ∷ ys else y ∷ insert x ys

  -- sorted(xs)
  unfoldable pub sort : List A → List A
  unfolding insert
  sort [] = []
  sort (x ∷ xs) = insert x (sort xs)

  -- Every item is below all that follow it.
  abbrev pub IsSorted : List A → Type ℓ
  IsSorted [] = Unit
  IsSorted (x ∷ xs) = ((y : A) → Memᴰ y xs → le x y ≡ true) × IsSorted xs

  pub mem-insert : (y x : A) (xs : List A) → Memᴰ y (insert x xs) → (y ≡ x) ⊎ Memᴰ y xs
  unfolding insert
  mem-insert y x [] (Memᴰ.head q) = inl q
  mem-insert y x [] (Memᴰ.tail m) = inr m
  mem-insert y x (z ∷ zs) m = elim (Bool-cases (le x z)) [
    | inl b ↦ elim (rw b at m) [ Memᴰ.head q ↦ inl q | Memᴰ.tail k ↦ inr k ]
    | inr b ↦ elim (rw b at m) [
      | Memᴰ.head q ↦ inr (Memᴰ.head q)
      | Memᴰ.tail k ↦ elim (mem-insert y x zs k) [ inl q ↦ inl q | inr j ↦ inr (Memᴰ.tail j) ]
    ]
  ]

  pub mem-sort : (y : A) (xs : List A) → Memᴰ y (sort xs) → Memᴰ y xs
  unfolding sort
  mem-sort y [] m = m
  mem-sort y (x ∷ xs) m = elim (mem-insert y x (sort xs) m) [
    | inl q ↦ Memᴰ.head q
    | inr k ↦ Memᴰ.tail (mem-sort y xs k)
  ]

  mem-insert_self : (x : A) (xs : List A) → Memᴰ x (insert x xs)
  unfolding insert
  mem-insert_self x [] = Memᴰ.head refl
  mem-insert_self x (z ∷ zs) = elim (Bool-cases (le x z)) [
    | inl b ↦ rw b (Memᴰ.head refl)
    | inr b ↦ rw b (Memᴰ.tail (mem-insert_self x zs))
  ]

  mem-insert_other : (y x : A) (xs : List A) → Memᴰ y xs → Memᴰ y (insert x xs)
  unfolding insert
  mem-insert_other y x [] m = elim m [ ]
  mem-insert_other y x (z ∷ zs) m = elim (Bool-cases (le x z)) [
    | inl b ↦ rw b (Memᴰ.tail m)
    | inr b ↦
        rw b (elim m [
          | Memᴰ.head q ↦ Memᴰ.head q
          | Memᴰ.tail k ↦ Memᴰ.tail (mem-insert_other y x zs k)
        ])
  ]

  pub sort-mem : (y : A) (xs : List A) → Memᴰ y xs → Memᴰ y (sort xs)
  unfolding sort
  sort-mem y [] m = elim m [ ]
  sort-mem y (x ∷ xs) (Memᴰ.head q) =
      subst (λ z. Memᴰ z (insert x (sort xs))) (sym q) (mem-insert_self x (sort xs))
  sort-mem y (x ∷ xs) (Memᴰ.tail m) = mem-insert_other y x (sort xs) (sort-mem y xs m)

  length-insert : (x : A) (xs : List A) → length (insert x xs) ≡ length (x ∷ xs)
  unfolding insert
  length-insert x [] = refl
  length-insert x (z ∷ zs) = ground (arith, length-insert x zs)

  pub length-sort : (xs : List A) → length (sort xs) ≡ length xs
  unfolding sort
  length-sort [] = refl
  length-sort (x ∷ xs) = length-insert x (sort xs) ∙ ap (λ n. suc n) (length-sort xs)

  module _ (o : IsOrder le) where
    insert-IsSorted : (x : A) (xs : List A) → IsSorted xs → IsSorted (insert x xs)
    unfolding insert
    insert-IsSorted x [] s = (λ y m. elim m [ ], tt)
    insert-IsSorted x (z ∷ zs) (below, s) = elim (Bool-cases (le x z)) [
      | inl b ↦ rw b (
          (
            λ y m. elim m [ Memᴰ.head q ↦ rw q b | Memᴰ.tail k ↦ o.trans x z y b (below y k) ],
            (below, s),
          ))
      | inr b ↦ rw b (
          (
            λ y m. elim (mem-insert y x zs m) [
              | inl q ↦ rw q (le_of_not le o x z b)
              | inr k ↦ below y k
            ],
            insert-IsSorted x zs s,
          ))
    ]

    pub sort-IsSorted : (xs : List A) → IsSorted (sort xs)
    unfolding sort
    sort-IsSorted [] = tt
    sort-IsSorted (x ∷ xs) = insert-IsSorted x (sort xs) (sort-IsSorted xs)

    -- Two items commute if they are apart, or the same.
    insert_comm :
        (x y : A) (l : List A)
        → (le x y ≡ true → le y x ≡ true → x ≡ y)
        → insert x (insert y l) ≡ insert y (insert x l)
    unfolding insert
    insert_comm x y [] d = ground (arith, o.total x y, d)
    insert_comm x y (z ∷ zs) d = ground (
      arith,
      o.total x y,
      d,
      o.trans x y z,
      o.trans y x z,
      le_of_not le o x z,
      le_of_not le o y z,
      insert_comm x y zs d,
    )

  -- Items with equal keys are the same item.
  abbrev pub HasKeys : List A → Type ℓ
  HasKeys xs = (a b : A) → Memᴰ a xs → Memᴰ b xs → le a b ≡ true → le b a ≡ true → a ≡ b

  mem_of_perm : {a : A} {xs ys : List A} → Permᴰ xs ys → Memᴰ a ys → Memᴰ a xs
  mem_of_perm Permᴰ.nil m = m
  mem_of_perm (Permᴰ.cons q p) (Memᴰ.head e) = Memᴰ.head (e ∙ sym q)
  mem_of_perm (Permᴰ.cons q p) (Memᴰ.tail m) = Memᴰ.tail (mem_of_perm p m)
  mem_of_perm (Permᴰ.swap q r) (Memᴰ.head e) = Memᴰ.tail (Memᴰ.head (e ∙ sym r))
  mem_of_perm (Permᴰ.swap q r) (Memᴰ.tail (Memᴰ.head e)) = Memᴰ.head (e ∙ sym q)
  mem_of_perm (Permᴰ.swap q r) (Memᴰ.tail (Memᴰ.tail m)) = Memᴰ.tail (Memᴰ.tail m)
  mem_of_perm (Permᴰ.trans p r) m = mem_of_perm p (mem_of_perm r m)

  -- Sorting forgets the order in which the items came.
  pub sort-perm : {xs ys : List A} → IsOrder le → Permᴰ xs ys → HasKeys xs → sort xs ≡ sort ys
  unfolding sort
  sort-perm o Permᴰ.nil k = refl
  sort-perm o (Permᴰ.cons {a} {b} {l₁} {l₂} q p) k =
      ap (λ z. insert z (sort l₁)) q
      ∙ ap (insert b) (sort-perm o p (λ u v m n. k u v (Memᴰ.tail m) (Memᴰ.tail n)))
  sort-perm o (Permᴰ.swap {a} {b} {a'} {b'} {l} q r) k =
      insert_comm o a b (sort l) (k a b (Memᴰ.head refl) (Memᴰ.tail (Memᴰ.head refl)))
      ∙ ap (λ z. insert z (insert a (sort l))) r
      ∙ ap (λ z. insert a' (insert z (sort l))) q
  sort-perm o (Permᴰ.trans p r) k =
      sort-perm o p k ∙ sort-perm o r (λ u v m n. k u v (mem_of_perm p m) (mem_of_perm p n))
