-- ===== src/Common/Split.antt =====
-- A text cut at every occurrence of a character.
use code_push.Common.{ℕ, ◌≡◌, refl, true, false, List, [], ◌∷◌, ◌++◌, eqb, if◌then◌else◌}

extend : ℕ → List (List ℕ) → List (List ℕ)
extend c [] = (c ∷ []) ∷ []
extend c (part ∷ parts) = (c ∷ part) ∷ parts

-- The parts between the occurrences of a character.
unfoldable pub split : ℕ → List ℕ → List (List ℕ)
unfolding extend
split n [] = [] ∷ []
split n (c ∷ l) = let parts = split n l in if eqb c n then [] ∷ parts else extend c parts

abbrev pub Without : ℕ → List ℕ → Type 0
Without n [] = Unit
Without n (c ∷ l) = (eqb c n ≡ false) × Without n l

pub Without-append : (n : ℕ) (k l : List ℕ) → Without n k → Without n l → Without n (k ++ l)
Without-append n [] l p q = q
Without-append n (c ∷ k) l (p, ps) q = (p, Without-append n k l ps q)

pub split_part : (n : ℕ) (k : List ℕ) → Without n k → split n k ≡ k ∷ []
unfolding split
split_part n [] h = refl
split_part n (c ∷ k) (p, h) = rw (p, split_part n k h)

pub split_parts :
    (n : ℕ) (k l : List ℕ) → Without n k → eqb n n ≡ true → split n (k ++ n ∷ l) ≡ k ∷ split n l
unfolding split
split_parts n [] l h e = rw e
split_parts n (c ∷ k) l (p, h) e = rw (p, split_parts n k l h e)
