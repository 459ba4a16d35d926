-- ===== src/Json/Map/Laws.antt =====
-- Laws of maps: what a lookup sees after each operation, and the order of the entries.
use colyseus_rs.Base.{
  true, false, Text, ◌==◌, ◌&&◌, text_eq, text_sound, text-reflexive, if◌then◌else◌, ◌≡◌, refl,
  arith, none, some, ◌≢◌, Bool-cases, inl, inr, sym,
}
use colyseus_rs.Json.{Value, Fields, done, field}
use colyseus_rs.Json.Map.{key_lt, get, contains_key, insert, remove, set, Above, Sorted}
use colyseus_rs.Json.Map.Order.{key_lt-irreflexive, key_lt_trans, key_lt-total}

pub key_lt-ne : (j k : Text) → key_lt j k ≡ true → (j == k) ≡ false
key_lt-ne j k h = elim (Bool-cases (j == k)) [
  | inl e ↦ let same : j ≡ k = text_sound j k e in cc (key_lt-irreflexive k, rw same at h)
  | inr ne ↦ ne
]

module _ {N : Type 0} where
  pub get-insert :
      (j k : Text) (v : Value N) (fs : Fields N)
      → get j (insert k v fs) ≡ (if j == k then some v else get j fs)
  unfolding get insert
  get-insert j k v done = refl
  get-insert j k v (field i w fs) =
      ground (
        arith,
        text_sound j k,
        text_sound k i,
        text_sound j i,
        text-reflexive j,
        get-insert j k v fs,
      )

  pub get-set :
      (j k : Text) (v : Value N) (fs : Fields N)
      → get j (set k v fs) ≡ (if j == k && contains_key k fs then some v else get j fs)
  unfolding get set contains_key
  get-set j k v done = ground arith
  get-set j k v (field i w fs) =
      ground
        (arith, text_sound j k, text_sound k i, text_sound j i, text-reflexive j, get-set j k v fs)

  pub set-set : (k : Text) (v w : Value N) (fs : Fields N) → set k v (set k w fs) ≡ set k v fs
  unfolding set
  set-set k v w done = refl
  set-set k v w (field i u fs) = ground (arith, set-set k v w fs)

  pub set-get : (k : Text) (v : Value N) (fs : Fields N) → get k fs ≡ some v → set k v fs ≡ fs
  unfolding get set
  set-get k v done h = refl
  set-get k v (field i u fs) h = ground (arith, set-get k v fs)

  pub contains_key-get :
      (k : Text) (v : Value N) (fs : Fields N) → get k fs ≡ some v → contains_key k fs ≡ true
  unfolding get contains_key
  contains_key-get k v done h = cc
  contains_key-get k v (field i u fs) h = ground (arith, contains_key-get k v fs)

  pub not_contains_key : (k : Text) (fs : Fields N) → contains_key k fs ≡ false → get k fs ≡ none
  unfolding get contains_key
  not_contains_key k done h = refl
  not_contains_key k (field i u fs) h = ground (arith, not_contains_key k fs)

  pub get-Above : (k : Text) (fs : Fields N) → Above k fs → get k fs ≡ none
  unfolding get
  get-Above k done h = refl
  get-Above k (field j v fs) h = ground (arith, key_lt-ne k j h.0, get-Above k fs h.1)

  Above-trans : (j k : Text) (fs : Fields N) → key_lt j k ≡ true → Above k fs → Above j fs
  Above-trans j k done h a = tt
  Above-trans j k (field i v fs) h a = (key_lt_trans j k i h a.0, Above-trans j k fs h a.1)

  Above-insert :
      (j k : Text) (v : Value N) (fs : Fields N)
      → key_lt j k ≡ true
      → Above j fs
      → Above j (insert k v fs)
  unfolding insert
  Above-insert j k v done h a = (h, tt)
  Above-insert j k v (field i w fs) h a = ground (arith, Above-insert j k v fs)

  pub insert-Sorted : (k : Text) (v : Value N) (fs : Fields N) → Sorted fs → Sorted (insert k v fs)
  unfolding insert
  insert-Sorted k v done s = (tt, tt)
  insert-Sorted k v (field i w fs) s = elim (Bool-cases (k == i)) [
    | inl e ↦ let same : k ≡ i = text_sound k i e in rw e (rw same s)
    | inr ne ↦ elim (Bool-cases (key_lt k i)) [
      | inl lt ↦ rw (ne, lt) ((lt, Above-trans k i fs lt s.0), s)
      | inr ge ↦
          let lt = key_lt_of k i ne ge in
          rw (ne, ge) (Above-insert i k v fs lt s.0, insert-Sorted k v fs s.1)
    ]
  ]
    where
      key_lt_of : (k i : Text) → (k == i) ≡ false → key_lt k i ≡ false → key_lt i k ≡ true
      key_lt_of k i ne ge = ground (arith, key_lt-total k i, text-reflexive i)

  Above-remove : (j k : Text) (fs : Fields N) → Above j fs → Above j (remove k fs)
  unfolding remove
  Above-remove j k done a = tt
  Above-remove j k (field i w fs) a = ground (arith, Above-remove j k fs)

  pub remove-Sorted : (k : Text) (fs : Fields N) → Sorted fs → Sorted (remove k fs)
  unfolding remove
  remove-Sorted k done s = tt
  remove-Sorted k (field i w fs) s = ground (arith, Above-remove i k fs s.0, remove-Sorted k fs s.1)

  pub get-remove :
      (j k : Text) (fs : Fields N)
      → Sorted fs
      → get j (remove k fs) ≡ (if j == k then none else get j fs)
  unfolding get remove
  get-remove j k done s = ground arith
  get-remove j k (field i w fs) s = ground (
    arith,
    text_sound j k,
    text_sound k i,
    text_sound j i,
    text-reflexive j,
    get-remove j k fs s.1,
    get-Above i fs s.0,
  )

  pub insert-eq-set :
      (k : Text) (v w : Value N) (fs : Fields N)
      → Sorted fs
      → get k fs ≡ some w
      → insert k v fs ≡ set k v fs
  unfolding get insert set
  insert-eq-set k v w done s h = cc
  insert-eq-set k v w (field i u fs) s h = elim (Bool-cases (k == i)) [
    | inl e ↦ let same : k ≡ i = text_sound k i e in ground arith
    | inr ne ↦ elim (Bool-cases (key_lt k i)) [
      | inl lt ↦ ground (arith, get-Above k fs (Above-trans k i fs lt s.0))
      | inr ge ↦ ground (arith, insert-eq-set k v w fs s.1)
    ]
  ]

  tails :
      (k : Text) (v w : Value N) (a b : Fields N)
      → Above k a
      → Above k b
      → ((i : Text) → get i (field k v a) ≡ get i (field k w b))
      → (i : Text) → get i a ≡ get i b
  unfolding get
  tails k v w a b above above' h i =
      ground (arith, h i, text_sound i k, get-Above k a above, get-Above k b above')

  head_not_below :
      (j k : Text) (v w : Value N) (a b : Fields N)
      → key_lt j k ≡ true
      → Above k b
      → get j (field j v a) ≢ get j (field k w b)
  unfolding get
  head_not_below j k v w a b lt above e =
      ground (arith, text-reflexive j, key_lt-ne j k lt, get-Above j b (Above-trans j k b lt above))

  same_head :
      (j k : Text) (v w : Value N) (a b : Fields N)
      → j ≡ k
      → Above j a
      → Above k b
      → ((i : Text) → get i (field j v a) ≡ get i (field k w b))
      → (((i : Text) → get i a ≡ get i b) → a ≡ b)
      → field j v a ≡ field k w b
  unfolding get
  same_head j k v w a b same above above' h ih =
      let e : v ≡ w = ground (arith, h k, text-reflexive k, text-reflexive j) in
      cc (ih (tails k v w a b (rw same at above) above' (λ i. rw same at (h i))))

  -- Two maps with the same lookups are the same map.
  pub map_ext : (m n : Fields N) → Sorted m → Sorted n → ((k : Text) → get k m ≡ get k n) → m ≡ n
  unfolding get
  map_ext done done sa sb h = refl
  map_ext done (field k w b) sa sb h = ground (arith, h k, text-reflexive k)
  map_ext (field j v a) done sa sb h = ground (arith, h j, text-reflexive j)
  map_ext (field j v a) (field k w b) sa sb h = elim (Bool-cases (key_lt j k)) [
    | inl lt ↦ absurd (head_not_below j k v w a b lt sb.0 (h j))
    | inr ge ↦ elim (Bool-cases (key_lt k j)) [
      | inl gt ↦ absurd (head_not_below k j w v b a gt sa.0 (sym (h k)))
      | inr le ↦
          let same : j ≡ k = key_lt-total j k ge le in
          same_head j k v w a b same sa.0 sb.0 h (map_ext a b sa.1 sb.1)
    ]
  ]

  pub contains_key-Above : (k : Text) (fs : Fields N) → Above k fs → contains_key k fs ≡ false
  unfolding contains_key
  contains_key-Above k done a = refl
  contains_key-Above k (field j v fs) a =
      ground (arith, key_lt-ne k j a.0, contains_key-Above k fs a.1)

  pub contains_key-remove :
      (j k : Text) (fs : Fields N)
      → Sorted fs
      → contains_key j (remove k fs) ≡ (if j == k then false else contains_key j fs)
  unfolding contains_key remove
  contains_key-remove j k done s = ground arith
  contains_key-remove j k (field i w fs) s = ground (
    arith,
    text_sound j k,
    text_sound k i,
    text_sound j i,
    text-reflexive j,
    contains_key-remove j k fs s.1,
    contains_key-Above i fs s.0,
  )

  pub contains_key_head :
      (k : Text) (v : Value N) (fs : Fields N) → contains_key k (field k v fs) ≡ true
  unfolding contains_key
  contains_key_head k v fs = rw (text-reflexive k)

  pub contains_key_tail :
      (j k : Text) (v : Value N) (fs : Fields N)
      → contains_key j fs ≡ true
      → contains_key j (field k v fs) ≡ true
  unfolding contains_key
  contains_key_tail j k v fs h = ground arith
