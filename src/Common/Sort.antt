-- ===== src/Common/Sort.antt =====
-- `Array.prototype.sort` for an order in which no two different values are equal: every stable or
-- unstable sort returns the same list then, and this is the one by insertion.
use mathlib.Core.Path.{◌≡◌, refl, ◌∙◌}
use mathlib.Core.Logic.{◌⊎◌, ∥∥₁_elim}
use mathlib.Core.Bool.{Bool, true, false, cond}
use mathlib.Core.List.{List, [], ◌∷◌, Perm, Permᴰ, is_set}
use mathlib.Core.List.Perm
use native.Mathlib.Omega.{arith}

module _ {ℓ} {A : Type ℓ} (le : A → A → Bool) where
  unfoldable pub insert : A → List A → List A
  insert x [] = x ∷ []
  insert x (y ∷ ys) = cond (le x y) (x ∷ y ∷ ys) (y ∷ insert x ys)

  unfoldable pub sort : List A → List A
  unfolding insert
  sort [] = []
  sort (x ∷ xs) = insert x (sort xs)

  pub insert-perm : (x : A) (l : List A) → Perm (insert x l) (x ∷ l)
  unfolding insert
  insert-perm x [] = Perm.refl (x ∷ [])
  insert-perm x (y ∷ ys) = go (le x y) (insert-perm x ys)
    where
      go :
          (b : Bool)
          → Perm (insert x ys) (x ∷ ys)
          → Perm (cond b (x ∷ y ∷ ys) (y ∷ insert x ys)) (x ∷ y ∷ ys)
      go true h = Perm.refl _
      go false h = Perm.trans (Perm.cons y h) (Perm.swap x y ys)

  pub sort-perm : (l : List A) → Perm (sort l) l
  unfolding sort
  sort-perm [] = Perm.refl []
  sort-perm (x ∷ xs) = Perm.trans (insert-perm x (sort xs)) (Perm.cons x (sort-perm xs))

-- An order in which any two values are ordered one way.
pub record IsOrder {ℓ} {A : Type ℓ} (le : A → A → Bool) : Type ℓ where
  pub total : (a b : A) → (le a b ≡ true) ⊎ (le b a ≡ true)
  pub antisymm : (a b : A) → le a b ≡ true → le b a ≡ true → a ≡ b
  pub trans : (a b c : A) → le a b ≡ true → le b c ≡ true → le a c ≡ true

module _ {ℓ} {A : Type ℓ} {le : A → A → Bool} (o : IsOrder le) where
  insert_comm : (a b : A) (l : List A) → insert le a (insert le b l) ≡ insert le b (insert le a l)
  unfolding insert
  insert_comm a b [] = ground (arith, o.total a b, o.antisymm a b)
  insert_comm a b (y ∷ ys) =
      ground (arith, o.total a b, o.antisymm a b, o.trans a b y, o.trans b a y, insert_comm a b ys)

  sort_of_permᴰ : {l m : List A} → Permᴰ l m → sort le l ≡ sort le m
  unfolding sort
  sort_of_permᴰ Permᴰ.nil = refl
  sort_of_permᴰ (Permᴰ.cons {a} {b} e p) = cc (e, sort_of_permᴰ p)
  sort_of_permᴰ (Permᴰ.swap {a} {b} {l} e f) = cc (e, f, insert_comm a b (sort le l))
  sort_of_permᴰ (Permᴰ.trans p q) = sort_of_permᴰ p ∙ sort_of_permᴰ q

  -- The order of the list does not matter to what `sort` returns.
  pub sort_of_perm : IsSet A → {l m : List A} → Perm l m → sort le l ≡ sort le m
  sort_of_perm set p = ∥∥₁_elim p (is_set set _ _) sort_of_permᴰ
