-- ===== src/Json/Patch/Laws.antt =====
-- How steps act below a key of an object and below an index of an array.
use colyseus_rs.Base.{
  ℕ, zero, suc, Text, List, [], ◌∷◌, ◌++◌, Option, none, some, ◌>>=◌, ◌≡◌, refl, ap, length, arith,
  Option-cases, inl, inr, ◌==◌, text_eq, text-reflexive, false, text, ◌≢◌, text_eqb,
}
use colyseus_rs.Base.Decimal.{to_string, parse_index, parse_index-to_string}
use colyseus_rs.Json.{Value, object, array, Items, nil, cons, Fields}
use colyseus_rs.Json.Map.{get, set}
use colyseus_rs.Json.Map.Laws.{get-set, contains_key-get}
use colyseus_rs.Json.Patch.{
  Step, Action, add, delete, replace, get_item, set_item, insert_item, remove_item, apply_at,
  apply_steps,
}

-- `-` is no index.
dash_digits : (s : Text) → parse_index s ≢ none → (s == text "-") ≡ false
unfolding parse_index text_eqb
dash_digits [] h = refl
dash_digits (c ∷ []) h = ground arith
dash_digits (c ∷ d ∷ s) h = ground arith

to_string-ne-dash : (i : ℕ) → (to_string i == text "-") ≡ false
to_string-ne-dash i = dash_digits (to_string i) (λ h. cc (parse_index-to_string i, h))

module _ {N : Type 0} where
  pub apply_steps-append :
      (a b : List (Step N)) (d : Value N)
      → apply_steps (a ++ b) d ≡ (apply_steps a d >>= apply_steps b)
  unfolding apply_steps
  apply_steps-append [] b d = refl
  apply_steps-append (s ∷ a) b d = elim (Option-cases (apply_at s.path s.action d)) [
    | inl e ↦ rw e
    | inr (d', e) ↦ rw e (apply_steps-append a b d')
  ]

  pub apply_steps-chain :
      (a b : List (Step N)) (d : Value N) {d' : Value N} {r : Option (Value N)}
      → apply_steps a d ≡ some d'
      → apply_steps b d' ≡ r
      → apply_steps (a ++ b) d ≡ r
  apply_steps-chain a b d e f = rw (apply_steps-append a b d, e) f

  -- A step on the whole value is a replacement, so that it can be moved below a key.
  abbrev pub InnerAt : List Text → Action N → Type 0
  InnerAt [] (replace v) = Unit
  InnerAt [] _ = ⊥
  InnerAt (k ∷ ks) act = Unit

  abbrev pub Inner : Step N → Type 0
  Inner s = InnerAt s.path s.action

  pub below_key :
      (key : Text) (path : List Text) (act : Action N) (fs : Fields N) {c c' : Value N}
      → InnerAt path act
      → get key fs ≡ some c
      → apply_at path act c ≡ some c'
      → apply_at (key ∷ path) act (object fs) ≡ some (object (set key c' fs))
  unfolding apply_at
  below_key key [] (replace v) fs {c} h e f = rw (contains_key-get key c fs e) (cc f)
  below_key key [] (add v) fs h e f = elim h [ ]
  below_key key [] delete fs h e f = elim h [ ]
  below_key key (k ∷ ks) act fs h e f = rw (e, f)

  pub below_index :
      (i : ℕ) (path : List Text) (act : Action N) (vs : Items N) {c c' : Value N}
      → InnerAt path act
      → get_item i vs ≡ some c
      → apply_at path act c ≡ some c'
      → apply_at (to_string i ∷ path) act (array vs) ≡ some (array (set_item i c' vs))
  unfolding apply_at
  below_index i [] (replace v) vs h e f = rw (parse_index-to_string i, e) (cc f)
  below_index i [] (add v) vs h e f = elim h [ ]
  below_index i [] delete vs h e f = elim h [ ]
  below_index i (k ∷ ks) act vs h e f = rw (parse_index-to_string i, e, f)

  abbrev pub items_of : List (Value N) → Items N → Items N
  items_of [] vs = vs
  items_of (v ∷ pre) vs = cons v (items_of pre vs)

  pub items_of-append :
      (pre : List (Value N)) (v : Value N) (vs : Items N)
      → items_of (pre ++ v ∷ []) vs ≡ items_of pre (cons v vs)
  items_of-append [] v vs = refl
  items_of-append (u ∷ pre) v vs = ap (cons u) (items_of-append pre v vs)

  pub get_item-items_of :
      (pre : List (Value N)) (v : Value N) (vs : Items N)
      → get_item (length pre) (items_of pre (cons v vs)) ≡ some v
  unfolding get_item
  get_item-items_of [] v vs = refl
  get_item-items_of (u ∷ pre) v vs = get_item-items_of pre v vs

  pub set_item-items_of :
      (pre : List (Value N)) (v w : Value N) (vs : Items N)
      → set_item (length pre) w (items_of pre (cons v vs)) ≡ items_of pre (cons w vs)
  unfolding set_item
  set_item-items_of [] v w vs = refl
  set_item-items_of (u ∷ pre) v w vs = ap (cons u) (set_item-items_of pre v w vs)

  pub insert_item-items_of :
      (pre : List (Value N)) (w : Value N) (vs : Items N)
      → insert_item (length pre) w (items_of pre vs) ≡ some (items_of pre (cons w vs))
  unfolding insert_item
  insert_item-items_of [] w vs = refl
  insert_item-items_of (u ∷ pre) w vs = rw (insert_item-items_of pre w vs)

  pub remove_item-items_of :
      (pre : List (Value N)) (v : Value N) (vs : Items N)
      → remove_item (length pre) (items_of pre (cons v vs)) ≡ some (items_of pre vs)
  unfolding remove_item
  remove_item-items_of [] v vs = refl
  remove_item-items_of (u ∷ pre) v vs = rw (remove_item-items_of pre v vs)

  pub set_item_get :
      (i : ℕ) (v : Value N) (vs : Items N) → get_item i vs ≡ some v → set_item i v vs ≡ vs
  unfolding get_item set_item
  set_item_get i v nil h = refl
  set_item_get zero v (cons u vs) h = cc
  set_item_get (suc i) v (cons u vs) h = ap (cons u) (set_item_get i v vs h)

  pub set_item-set_item :
      (i : ℕ) (v w : Value N) (vs : Items N) → set_item i v (set_item i w vs) ≡ set_item i v vs
  unfolding set_item
  set_item-set_item i v w nil = refl
  set_item-set_item zero v w (cons u vs) = refl
  set_item-set_item (suc i) v w (cons u vs) = ap (cons u) (set_item-set_item i v w vs)

  pub get_item-set_item :
      (i : ℕ) (v w : Value N) (vs : Items N)
      → get_item i vs ≡ some v
      → get_item i (set_item i w vs) ≡ some w
  unfolding get_item set_item
  get_item-set_item i v w nil h = cc
  get_item-set_item zero v w (cons u vs) h = refl
  get_item-set_item (suc i) v w (cons u vs) h = get_item-set_item i v w vs h

  pub get-set_self :
      (k : Text) (v w : Value N) (fs : Fields N) → get k fs ≡ some v → get k (set k w fs) ≡ some w
  get-set_self k v w fs h = rw (get-set k k w fs, text-reflexive k, contains_key-get k v fs h)

  pub delete_at :
      (pre : List (Value N)) (v : Value N) (vs : Items N)
      → apply_at (to_string (length pre) ∷ []) delete (array (items_of pre (cons v vs)))
        ≡ some (array (items_of pre vs))
  unfolding apply_at
  delete_at pre v vs = rw (parse_index-to_string (length pre), remove_item-items_of pre v vs)

  pub add_at :
      (pre : List (Value N)) (w : Value N) (vs : Items N)
      → apply_at (to_string (length pre) ∷ []) (add w) (array (items_of pre vs))
        ≡ some (array (items_of pre (cons w vs)))
  unfolding apply_at
  add_at pre w vs = rw (
    to_string-ne-dash (length pre),
    parse_index-to_string (length pre),
    insert_item-items_of pre w vs,
  )
