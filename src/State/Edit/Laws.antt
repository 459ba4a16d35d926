-- ===== src/State/Edit/Laws.antt =====
-- What an edit changes, and what it leaves alone.
use colyseus_rs.Base.{
  ℕ, zero, suc, ◌<◌, Text, List, [], ◌∷◌, Option, none, some, ◌≡◌, refl, ◌≢◌, arith, Option-cases,
  inl, inr, ◌⊎◌, ltb, length, All, All-weaken, text_eq, text-reflexive, text_sound, true,
  ◌>>=◌ as option_bind,
}
use colyseus_rs.Base.Decimal.{parse_usize}
use colyseus_rs.Base.Result.{ok, ok_or, bind_ok, ok_or_ok}
use colyseus_rs.Json.{
  Value, null, bool, number, string, array, object, Items, nil, cons, to_list, Fields,
}
use colyseus_rs.Json.Map
use colyseus_rs.Json.Map.Laws.{get-insert, get-set, contains_key-get}
use colyseus_rs.Json.Patch.{get_item, set_item}
use colyseus_rs.Json.Patch.Laws.{get_item-set_item}
use colyseus_rs.State.Edit.{set, edit_at_path, edit_last, edit_index}

-- Two segments that name different places of any container.
abbrev pub Apart : Text → Text → Type 0
Apart k j = (k ≢ j) × ((i : ℕ) → parse_usize k ≡ some i → parse_usize j ≢ some i)

-- Neither path is a prefix of the other.
abbrev pub Diverge : List Text → List Text → Type 0
Diverge (k ∷ p) (j ∷ q) = Apart k j ⊎ ((k ≡ j) × Diverge p q)
Diverge _ _ = ⊥

bind_some {ℓ} :
    {A B : Type ℓ} (o : Option A) (f : A → Option B) {b : B}
    → option_bind o f ≡ some b
    → (a : A) × (o ≡ some a) × (f a ≡ some b)
bind_some none f h = cc
bind_some (some a) f h = (a, refl, h)

module _ {N : Type 0} where
  -- The value at a path, read with the source's own reading of indices.
  unfoldable pub value_at : Value N → List Text → Option (Value N)
  value_at root [] = some root
  value_at (object fs) (seg ∷ path) = option_bind (Map.get seg fs) (λ child. value_at child path)
  value_at (array vs) (seg ∷ path) =
      option_bind (parse_usize seg)
        (λ i. option_bind (get_item i vs) (λ child. value_at child path))
  value_at _ (seg ∷ path) = none

  get_item_set :
      (i : ℕ) (v : Value N) (vs : Items N)
      → i < length (to_list vs)
      → get_item i (set_item i v vs) ≡ some v
  unfolding get_item set_item
  get_item_set i v nil h = elim h [ ]
  get_item_set zero v (cons w vs) h = refl
  get_item_set (suc i) v (cons w vs) h = get_item_set i v vs (omega arith)

  get_self : (k : Text) (v : Value N) (fs : Fields N) → Map.get k (Map.insert k v fs) ≡ some v
  get_self k v fs = rw (get-insert k k v fs, text-reflexive k)

  get-set_self :
      (k : Text) (v w : Value N) (fs : Fields N)
      → Map.get k fs ≡ some v
      → Map.get k (Map.set k w fs) ≡ some w
  get-set_self k v w fs h = rw (get-set k k w fs, text-reflexive k, contains_key-get k v fs h)

  get_other :
      (j k : Text) (v : Value N) (fs : Fields N)
      → k ≢ j
      → Map.get j (Map.insert k v fs) ≡ Map.get j fs
  get_other j k v fs ne = ground (arith, get-insert j k v fs, text_sound j k)

  get-set_other :
      (j k : Text) (v : Value N) (fs : Fields N) → k ≢ j → Map.get j (Map.set k v fs) ≡ Map.get j fs
  get-set_other j k v fs ne = ground (arith, get-set j k v fs, text_sound j k)

  get_item_set_other :
      (i j : ℕ) (v : Value N) (vs : Items N) → i ≢ j → get_item j (set_item i v vs) ≡ get_item j vs
  unfolding get_item set_item
  get_item_set_other i j v nil h = refl
  get_item_set_other zero zero v (cons w vs) h = absurd (h refl)
  get_item_set_other zero (suc j) v (cons w vs) h = refl
  get_item_set_other (suc i) zero v (cons w vs) h = refl
  get_item_set_other (suc i) (suc j) v (cons w vs) h = get_item_set_other i j v vs (omega arith)

  index_set :
      (vs : Items N) (root' : Value N) (i : ℕ) (v : Value N)
      → edit_index vs i (set v) ≡ ok root'
      → (i < length (to_list vs)) × (root' ≡ array (set_item i v vs))
  unfolding edit_index
  index_set vs root' i v h = ground arith

  -- An edit of the last container: the place of the key holds the value, all others what they held.
  last_set :
      (root root' : Value N) (key : Text) (v : Value N)
      → edit_last root key (set v) ≡ ok root'
      → (value_at root' (key ∷ []) ≡ some v)
        × ((j : Text) (q : List Text)
            → Apart key j
            → value_at root' (j ∷ q) ≡ value_at root (j ∷ q))
  unfolding edit_last value_at
  last_set (object fs) root' key v h =
      let e : object (Map.insert key v fs) ≡ root' = cc h in
      rw (← e) (rw (get_self key v fs) refl, λ j q apart. rw (get_other j key v fs apart.0) refl)
  last_set (array vs) root' key v h =
      let (i, p, r) = bind_ok (ok_or (parse_usize key) _) _ h in
      let named = ok_or_ok (parse_usize key) _ p in
      let (inside, e) = index_set vs root' i v r in
      rw e (rw (named, get_item_set i v vs inside) refl, λ j q apart. other i j q named apart)
    where
      other :
          (i : ℕ) (j : Text) (q : List Text)
          → parse_usize key ≡ some i
          → Apart key j
          → value_at (array (set_item i v vs)) (j ∷ q) ≡ value_at (array vs) (j ∷ q)
      other i j q named apart = elim (Option-cases (parse_usize j)) [
        | inl wrong ↦ rw wrong
        | inr (i', named') ↦
            rw (named', get_item_set_other i i' v vs (λ same. apart.1 i named (rw same named')))
      ]
  last_set null root' key v h = cc
  last_set (bool b) root' key v h = cc
  last_set (number n) root' key v h = cc
  last_set (string s) root' key v h = cc

  abbrev Reads : Value N → Value N → List Text → Value N → Type 0
  Reads root root' path v =
      (value_at root' path ≡ some v)
      × ((q : List Text) → Diverge path q → value_at root' q ≡ value_at root q)

  Reads-last :
      (root root' : Value N) (key : Text) (v : Value N)
      → edit_last root key (set v) ≡ ok root'
      → Reads root root' (key ∷ []) v
  Reads-last root root' key v h = ((last_set root root' key v h).0, frame)
    where
      frame : (q : List Text) → Diverge (key ∷ []) q → value_at root' q ≡ value_at root q
      frame [] d = elim d [ ]
      frame (j ∷ q) (inl apart) = (last_set root root' key v h).1 j q apart
      frame (j ∷ q) (inr (_, d)) = elim d [ ]

  below_object :
      (fs : Fields N) (seg : Text) (path : List Text) (child child' v : Value N)
      → Map.get seg fs ≡ some child
      → Reads child child' path v
      → Reads (object fs) (object (Map.set seg child' fs)) (seg ∷ path) v
  unfolding value_at
  below_object fs seg path child child' v found (here, others) =
      (rw (get-set_self seg child child' fs found) here, frame)
    where
      frame :
          (q : List Text)
          → Diverge (seg ∷ path) q
          → value_at (object (Map.set seg child' fs)) q ≡ value_at (object fs) q
      frame [] d = elim d [ ]
      frame (j ∷ q) (inl apart) = rw (get-set_other j seg child' fs apart.0)
      frame (j ∷ q) (inr (same, d)) =
          rw (← same, get-set_self seg child child' fs found, found) (others q d)

  below_array :
      (vs : Items N) (seg : Text) (i : ℕ) (path : List Text) (child child' v : Value N)
      → parse_usize seg ≡ some i
      → get_item i vs ≡ some child
      → Reads child child' path v
      → Reads (array vs) (array (set_item i child' vs)) (seg ∷ path) v
  unfolding value_at
  below_array vs seg i path child child' v named found (here, others) =
      (rw (named, get_item-set_item i child child' vs found) here, frame)
    where
      frame :
          (q : List Text)
          → Diverge (seg ∷ path) q
          → value_at (array (set_item i child' vs)) q ≡ value_at (array vs) q
      frame [] d = elim d [ ]
      frame (j ∷ q) (inl apart) = elim (Option-cases (parse_usize j)) [
        | inl wrong ↦ rw wrong
        | inr (i', named') ↦
            rw
              (named', get_item_set_other i i' child' vs (λ same. apart.1 i named (rw same named')))
      ]
      frame (j ∷ q) (inr (same, d)) =
          rw (← same, named, get_item-set_item i child child' vs found, found) (others q d)

  edit_at_path_reads :
      (root root' : Value N) (path : List Text) (v : Value N)
      → edit_at_path root path (set v) ≡ ok root'
      → (value_at root' path ≡ some v)
        × ((q : List Text) → Diverge path q → value_at root' q ≡ value_at root q)
  unfolding edit_at_path
  edit_at_path_reads root root' [] v h = (unfold value_at in ground arith, λ q d. elim d [ ])
  edit_at_path_reads root root' (key ∷ []) v h = Reads-last root root' key v h
  edit_at_path_reads (object fs) root' (seg ∷ next ∷ path) v h =
      let (child, p, r) = bind_ok (ok_or (Map.get seg fs) _) _ h in
      let (child', p', r') = bind_ok (edit_at_path child (next ∷ path) (set v)) _ r in
      let e : object (Map.set seg child' fs) ≡ root' = cc r' in
      rw (← e) (
        below_object fs seg (next ∷ path) child child' v (ok_or_ok (Map.get seg fs) _ p)
          (edit_at_path_reads child child' (next ∷ path) v p'))
  edit_at_path_reads (array vs) root' (seg ∷ next ∷ path) v h =
      let (i, p, r) = bind_ok (ok_or (parse_usize seg) _) _ h in
      let (child, g, r1) = bind_ok (ok_or (get_item i vs) _) _ r in
      let (child', p', r') = bind_ok (edit_at_path child (next ∷ path) (set v)) _ r1 in
      let e : array (set_item i child' vs) ≡ root' = cc r' in
      rw (← e) (
        below_array vs seg i (next ∷ path) child child' v (ok_or_ok (parse_usize seg) _ p)
          (ok_or_ok (get_item i vs) _ g) (edit_at_path_reads child child' (next ∷ path) v p'))
  edit_at_path_reads null root' (seg ∷ next ∷ path) v h = cc
  edit_at_path_reads (bool b) root' (seg ∷ next ∷ path) v h = cc
  edit_at_path_reads (number n) root' (seg ∷ next ∷ path) v h = cc
  edit_at_path_reads (string s) root' (seg ∷ next ∷ path) v h = cc

  get_item_bound :
      (i : ℕ) (v : Value N) (vs : Items N)
      → get_item i vs ≡ some v
      → ltb i (length (to_list vs)) ≡ true
  unfolding get_item
  get_item_bound i v nil h = cc
  get_item_bound zero v (cons w vs) h = ground arith
  get_item_bound (suc i) v (cons w vs) h = ground (arith, get_item_bound i v vs h)

  last_total :
      (root old v : Value N) (key : Text)
      → value_at root (key ∷ []) ≡ some old
      → (root' : Value N) × (edit_last root key (set v) ≡ ok root')
  unfolding value_at edit_last
  last_total (object fs) old v key h = (object (Map.insert key v fs), refl)
  last_total (array vs) old v key h =
      let (i, named, r) = bind_some (parse_usize key) _ h in
      let (child, found, e) = bind_some (get_item i vs) _ r in
      (array (set_item i v vs), rw (named, get_item_bound i child vs found))
  last_total null old v key h = cc
  last_total (bool b) old v key h = cc
  last_total (number n) old v key h = cc
  last_total (string s) old v key h = cc

  -- Setting a path that holds a value always succeeds.
  pub edit_at_path_total :
      (root old : Value N) (path : List Text) (v : Value N)
      → value_at root path ≡ some old
      → (root' : Value N) × (edit_at_path root path (set v) ≡ ok root')
  unfolding edit_at_path value_at
  edit_at_path_total root old [] v h = (v, refl)
  edit_at_path_total root old (key ∷ []) v h = last_total root old v key h
  edit_at_path_total (object fs) old (seg ∷ next ∷ path) v h =
      let (child, found, r) = bind_some (Map.get seg fs) _ h in
      let (child', e) = edit_at_path_total child old (next ∷ path) v r in
      (object (Map.set seg child' fs), rw (found, e))
  edit_at_path_total (array vs) old (seg ∷ next ∷ path) v h =
      let (i, named, r) = bind_some (parse_usize seg) _ h in
      let (child, found, r') = bind_some (get_item i vs) _ r in
      let (child', e) = edit_at_path_total child old (next ∷ path) v r' in
      (array (set_item i child' vs), rw (named, found, e))
  edit_at_path_total null old (seg ∷ next ∷ path) v h = cc
  edit_at_path_total (bool b) old (seg ∷ next ∷ path) v h = cc
  edit_at_path_total (number n) old (seg ∷ next ∷ path) v h = cc
  edit_at_path_total (string s) old (seg ∷ next ∷ path) v h = cc

  -- Where `edit_at_path` sets a value and succeeds, the path, which may be that of the root, then holds
  -- the value, and each of any paths that part from it at some container holds what it held before.
  pub edit_at_path-set :
      (root root' : Value N) (path : List Text) (others : List (List Text)) (v : Value N)
      → edit_at_path root path (set v) ≡ ok root'
      → All (Diverge path) others
      → (value_at root' path ≡ some v) × All (λ q. value_at root' q ≡ value_at root q) others
  edit_at_path-set root root' path others v h apart =
      let (reads, frame) = edit_at_path_reads root root' path v h in
      (reads, All-weaken (λ q d. frame q d) others apart)
