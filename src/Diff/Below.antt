-- ===== src/Diff/Below.antt =====
-- Steps moved below a key or an index change the child, and nothing else.
use colyseus_rs.Base.{ℕ, Text, List, [], ◌∷◌, ◌++◌, some, ◌≡◌, ap, ◌∙◌, All, Option-cases, inl, inr}
use colyseus_rs.Base.Decimal.{to_string}
use colyseus_rs.Json.{Value, object, array, Items, Fields}
use colyseus_rs.Json.Map.{get, set}
use colyseus_rs.Json.Map.Laws.{set-set, set-get}
use colyseus_rs.Json.Patch.{Step, get_item, set_item, apply_at, apply_steps}
use colyseus_rs.Json.Patch.Laws.{
  Inner, below_key, below_index, get-set_self, set_item_get, set_item-set_item, get_item-set_item,
}
use colyseus_rs.Diff.Steps.{under}

module _ {N : Type 0} where
  pub All-append : (P : Step N → Type 0) (a b : List (Step N)) → All P a → All P b → All P (a ++ b)
  All-append P [] b h k = k
  All-append P (s ∷ a) b h k = (h.0, All-append P a b h.1 k)

  pub under-Inner : (key : Text) (ss : List (Step N)) → All Inner (under key ss)
  unfolding under
  under-Inner key [] = tt
  under-Inner key (s ∷ ss) = (tt, under-Inner key ss)

  pub under_key :
      (key : Text) (ss : List (Step N)) (fs : Fields N) (c c' : Value N)
      → All Inner ss
      → get key fs ≡ some c
      → apply_steps ss c ≡ some c'
      → apply_steps (under key ss) (object fs) ≡ some (object (set key c' fs))
  unfolding apply_steps under
  under_key key [] fs c c' h e f = cc (set-get key c fs e)
  under_key key (s ∷ ss) fs c c' h e f = elim (Option-cases (apply_at s.path s.action c)) [
    | inl stuck ↦ cc (rw stuck at f)
    | inr (c1, step) ↦ rw (below_key key s.path s.action fs h.0 e step) (
        under_key key ss (set key c1 fs) c1 c' h.1 (get-set_self key c c1 fs e) (rw step at f)
        ∙ ap (λ (m : Fields N). some (object m)) (set-set key c' c1 fs))
  ]

  pub under_index :
      (i : ℕ) (ss : List (Step N)) (vs : Items N) (c c' : Value N)
      → All Inner ss
      → get_item i vs ≡ some c
      → apply_steps ss c ≡ some c'
      → apply_steps (under (to_string i) ss) (array vs) ≡ some (array (set_item i c' vs))
  unfolding apply_steps under
  under_index i [] vs c c' h e f = cc (set_item_get i c vs e)
  under_index i (s ∷ ss) vs c c' h e f = elim (Option-cases (apply_at s.path s.action c)) [
    | inl stuck ↦ cc (rw stuck at f)
    | inr (c1, step) ↦ rw (below_index i s.path s.action vs h.0 e step) (
        under_index i ss (set_item i c1 vs) c1 c' h.1 (get_item-set_item i c c1 vs e) (rw step at f)
        ∙ ap (λ (m : Items N). some (array m)) (set_item-set_item i c' c1 vs))
  ]
