-- ===== src/Diff/Minimal.antt =====
-- The longest-common-subsequence path of `diff_array` emits as few operations as removals and
-- insertions allow.
use colyseus_rs.Base.{
  ℕ, zero, suc, ◌+◌, ◌*◌, ◌≤◌, max, List, [], ◌∷◌, ◌++◌, ◌≡◌, refl, ap, sym, ◌∙◌, arith, Bool-cases,
  inl, inr, ◌⊎◌, Eq, ◌==◌, if◌then◌else◌, true, leb, leb→le, leb→gt, get_or, drop, length,
  length-append, Text,
}
use colyseus_rs.Json.{Value}
use colyseus_rs.Json.Equality.{json_eq}
use colyseus_rs.Diff.Table.{tail, cell, zero_row, fill_row, fill_table}
use colyseus_rs.Diff.{lcs_walk, diff_array_lcs, add_extras, remove_extras}

-- `zs` is left of the list when some elements are taken out.
pub data Sub {A : Type 0} : List A → List A → Type 0 where
  done : Sub [] []
  skip : {zs ys : List A} {y : A} → Sub zs ys → Sub zs (y ∷ ys)
  keep : {zs ys : List A} {y : A} → Sub zs ys → Sub (y ∷ zs) (y ∷ ys)

get_or-tail : (row : List ℕ) (k : ℕ) → get_or (tail row) k 0 ≡ get_or row (suc k) 0
get_or-tail [] k = refl
get_or-tail (n ∷ row) k = refl

module _ {A : Type 0} ⦃e : Eq A⦄ where
  lcs : List A → List A → ℕ
  lcs [] new = 0
  lcs (x ∷ old) [] = 0
  lcs (x ∷ old) (y ∷ new) =
      let keep = lcs old new + 1 in
      let skip = max (lcs old (y ∷ new)) (lcs (x ∷ old) new) in if x == y then keep else skip

  lcs_nil : (old : List A) → lcs old [] ≡ 0
  unfolding lcs
  lcs_nil [] = refl
  lcs_nil (x ∷ old) = refl

  Sub-tail : {z y : A} {zs ys : List A} → Sub (z ∷ zs) (y ∷ ys) → Sub zs ys
  Sub-tail (skip s) = weaken s
    where
      weaken : {z : A} {zs ys : List A} → Sub (z ∷ zs) ys → Sub zs ys
      weaken (skip s) = skip (weaken s)
      weaken (keep s) = skip s
  Sub-tail (keep s) = s

  zero_row-get : (new : List A) (k : ℕ) → get_or (zero_row new) k 0 ≡ 0
  unfolding zero_row
  zero_row-get [] zero = refl
  zero_row-get [] (suc k) = refl
  zero_row-get (y ∷ new) zero = refl
  zero_row-get (y ∷ new) (suc k) = zero_row-get new k

  fill_row_lem :
      (x : A) (old new : List A) (below : List ℕ)
      → ((k : ℕ) → get_or below k 0 ≡ lcs old (drop k new))
      → (k : ℕ) → get_or (fill_row x new below) k 0 ≡ lcs (x ∷ old) (drop k new)
  unfolding fill_row lcs
  fill_row_lem x old [] below h zero = refl
  fill_row_lem x old [] below h (suc k) = refl
  fill_row_lem x old (y ∷ new) below h zero =
      rw (h 0, h 1, fill_row_lem x old new (tail below) (λ k. get_or-tail below k ∙ h (suc k)) 0)
  fill_row_lem x old (y ∷ new) below h (suc k) =
      fill_row_lem x old new (tail below) (λ j. get_or-tail below j ∙ h (suc j)) k

  -- The table holds the lengths of the longest common subsequences.
  cell-fill_table :
      (old new : List A) (k : ℕ) → cell (fill_table old new) 0 k ≡ lcs old (drop k new)
  unfolding fill_table lcs
  cell-fill_table [] new k = zero_row-get new k
  cell-fill_table (x ∷ old) new k = fill_row_lem x old new _ (cell-fill_table old new) k

  first_or_later : {z y : A} {zs ys : List A} → Sub (z ∷ zs) (y ∷ ys) → Sub (z ∷ zs) ys ⊎ (z ≡ y)
  first_or_later (skip s) = inl s
  first_or_later (keep s) = inr refl

  same_self : {x y : A} → x ≡ y → (x == y) ≡ true
  same_self {x} h = rw (← h) (e.reflexive x)

  -- No common subsequence is longer.
  Sub-lcs : (old new zs : List A) → Sub zs old → Sub zs new → length zs ≤ lcs old new
  unfolding lcs
  Sub-lcs [] new zs done t = omega arith
  Sub-lcs (x ∷ old) [] zs s done = omega arith
  Sub-lcs (x ∷ old) (y ∷ new) [] s t = omega arith
  Sub-lcs (x ∷ old) (y ∷ new) (z ∷ zs) s t = elim (Bool-cases (x == y)) [
    | inl same ↦ rw same (omega (arith, Sub-lcs old new zs (Sub-tail s) (Sub-tail t)))
    | inr differ ↦ elim (first_or_later s) [
      | inl later ↦ rw differ (omega (arith, Sub-lcs old (y ∷ new) (z ∷ zs) later t))
      | inr first ↦ elim (first_or_later t) [
        | inl later ↦ rw differ (omega (arith, Sub-lcs (x ∷ old) new (z ∷ zs) s later))
        | inr second ↦ cc (same_self (sym first ∙ second), differ)
      ]
    ]
  ]

module _ {A : Type 0} ⦃e : Eq A⦄ where
  table_tail : (x : A) (old full : List A) → tail (fill_table (x ∷ old) full) ≡ fill_table old full
  unfolding fill_table
  table_tail x old full = refl

  table_below :
      (x : A) (old full : List A) (j : ℕ)
      → cell (fill_table (x ∷ old) full) 1 j ≡ cell (fill_table old full) 0 j
  unfolding fill_table
  table_below x old full j = refl

drop-suc {ℓ} :
    {A : Type ℓ} (j : ℕ) (full new : List A) (y : A)
    → drop j full ≡ y ∷ new
    → drop (suc j) full ≡ new
drop-suc zero [] new y h = cc
drop-suc zero (z ∷ full) new y h = cc
drop-suc (suc j) [] new y h = cc
drop-suc (suc j) (z ∷ full) new y h = drop-suc j full new y h

module _ {N : Type 0} where
  length-add_extras :
      (j : ℕ) (items : List (Value N)) (path : Text) (ops : List (Value N))
      → length (add_extras j items path ops) ≡ length ops + length items
  unfolding add_extras
  length-add_extras j [] path ops = omega arith
  length-add_extras j (item ∷ items) path ops =
      omega
        (arith, length-add_extras (suc j) items path (ops ++ _ ∷ []), length-append ops (_ ∷ []))

  length-remove_extras :
      (n i : ℕ) (path : Text) (ops : List (Value N))
      → length (remove_extras n i path ops) ≡ length ops + n
  unfolding remove_extras
  length-remove_extras zero i path ops = omega arith
  length-remove_extras (suc n) i path ops =
      omega (arith, length-remove_extras n i path (ops ++ _ ∷ []), length-append ops (_ ∷ []))

module _ {N : Type 0} ⦃e : Eq N⦄ where
  length-lcs_walk :
      (full old new : List (Value N)) (j cur : ℕ) (path : Text) (ops : List (Value N))
      → drop j full ≡ new
      → length (lcs_walk (fill_table old full) old new j cur path ops) + 2 * lcs old new
        ≡ length ops + length old + length new
  unfolding lcs_walk lcs
  length-lcs_walk full [] new j cur path ops h = omega (arith, length-add_extras cur new path ops)
  length-lcs_walk full (x ∷ old) [] j cur path ops h =
      omega (arith, length-remove_extras (length (x ∷ old)) cur path ops)
  length-lcs_walk full (x ∷ old) (y ∷ new) j cur path ops h = elim (Bool-cases (x == y)) [
    | inl same ↦
        rw (same, table_tail x old full)
          (omega (
            arith,
            length-lcs_walk full old new (suc j) (suc cur) path ops (drop-suc j full new y h),
          ))
    | inr differ ↦ elim (Bool-cases (leb (cell rows 0 (suc j)) (cell rows 1 j))) [
      | inl shorter ↦
          rw (differ, shorter, table_tail x old full)
            (omega (
              arith,
              leb→le _ _ shorter,
              right,
              below,
              length-lcs_walk full old (y ∷ new) j cur path (ops ++ _ ∷ []) h,
              length-append ops (_ ∷ []),
            ))
      | inr longer ↦
          rw (differ, longer)
            (omega (
              arith,
              leb→gt _ _ longer,
              right,
              below,
              length-lcs_walk full (x ∷ old) new (suc j) (suc cur) path (ops ++ _ ∷ [])
                  (drop-suc j full new y h),
              length-append ops (_ ∷ []),
            ))
    ]
  ]
    where
      rows : List (List ℕ)
      rows = fill_table (x ∷ old) full

      right : cell rows 0 (suc j) ≡ lcs (x ∷ old) new
      right = cell-fill_table (x ∷ old) full (suc j) ∙ ap (lcs (x ∷ old)) (drop-suc j full new y h)

      below : cell rows 1 j ≡ lcs old (y ∷ new)
      below = table_below x old full j ∙ cell-fill_table old full j ∙ ap (lcs old) h

  -- The number of operations is the least that removals and insertions can do with: whatever common
  -- subsequence is kept, taking out the rest of `old` and putting in the rest of `new` takes as many
  -- operations or more.
  pub diff_array_lcs_minimal :
      (old new : List (Value N)) (path : Text) (ops : List (Value N)) (zs : List (Value N))
      → Sub zs old
      → Sub zs new
      → length (diff_array_lcs old new path ops) + 2 * length zs
        ≤ length ops + length old + length new
  unfolding diff_array_lcs
  diff_array_lcs_minimal old new path ops zs s t =
      omega (arith, length-lcs_walk new old new 0 0 path ops refl, Sub-lcs old new zs s t)
