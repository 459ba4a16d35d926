-- ===== src/Json/Valid.antt =====
-- Documents whose maps are in order.
use colyseus_rs.Base.{some, ◌≡◌, Text, ◌==◌, text_eq, Bool-cases, inl, inr, arith}
use colyseus_rs.Json.{Value, array, object, Items, nil, cons, Fields, done, field}
use colyseus_rs.Json.Map.{Sorted, get}

-- Every object of the document has its keys in order, as those of a `BTreeMap` are.
abbrev mutual
  pub IsValid : {N : Type 0} → Value N → Type 0
  IsValid (array vs) = ItemsValid vs
  IsValid (object fs) = Sorted fs × FieldsValid fs
  IsValid _ = Unit

  pub ItemsValid : {N : Type 0} → Items N → Type 0
  ItemsValid nil = Unit
  ItemsValid (cons v vs) = IsValid v × ItemsValid vs

  pub FieldsValid : {N : Type 0} → Fields N → Type 0
  FieldsValid done = Unit
  FieldsValid (field k v fs) = IsValid v × FieldsValid fs

pub get-IsValid :
    {N : Type 0} (k : Text) (v : Value N) (fs : Fields N)
    → FieldsValid fs
    → get k fs ≡ some v
    → IsValid v
unfolding get
get-IsValid k v done h e = cc
get-IsValid k v (field j w fs) h e = elim (Bool-cases (k == j)) [
  | inl hit ↦ let same : w ≡ v = ground arith in rw same at h.0
  | inr miss ↦ get-IsValid k v fs h.1 (rw miss at e)
]
