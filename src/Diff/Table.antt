-- ===== src/Diff/Table.antt =====
-- The table `dp` of `diff_array_lcs` (crates/colyseus/src/diff.rs), row by row from the bottom.
use colyseus_rs.Base.{ℕ, ◌+◌, max, List, [], ◌∷◌, if◌then◌else◌, Eq, ◌==◌, get_or}

module _ {ℓ} {A : Type ℓ} where
  abbrev pub tail : List A → List A
  tail [] = []
  tail (x ∷ xs) = xs

-- `dp[i + di][j]`, where `rows` are the rows from `i` on.
abbrev pub cell : List (List ℕ) → ℕ → ℕ → ℕ
cell rows di j = get_or (get_or rows di []) j 0

-- Row `n`: zeros.
unfoldable pub zero_row {ℓ} : {A : Type ℓ} → List A → List ℕ
zero_row [] = 0 ∷ []
zero_row (y ∷ new) = 0 ∷ zero_row new

module _ {A : Type 0} ⦃e : Eq A⦄ where
  -- Row `i` from the part of row `i + 1` at the same columns: the loop over `j` from the right.
  unfoldable pub fill_row : A → List A → List ℕ → List ℕ
  fill_row x [] below = 0 ∷ []
  fill_row x (y ∷ new) below =
      let rest = fill_row x new (tail below) in
      (if x == y then get_or below 1 0 + 1 else max (get_or below 0 0) (get_or rest 0 0)) ∷ rest

  -- The loop over `i` from the bottom.
  unfoldable pub fill_table : List A → List A → List (List ℕ)
  fill_table [] new = zero_row new ∷ []
  fill_table (x ∷ old) new =
      let rows = fill_table old new in fill_row x new (get_or rows 0 []) ∷ rows
