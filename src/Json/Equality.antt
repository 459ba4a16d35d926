-- ===== src/Json/Equality.antt =====
-- `PartialEq` of `Value` is structural; it decides equality when that of the numbers does.
use colyseus_rs.Base.{
  Bool, true, false, ◌&&◌, ◌≡◌, refl, arith, Eq, ◌==◌, text_eq, text_sound, text-reflexive,
  and_both,
}
use colyseus_rs.Json.{
  Value, null, bool, number, string, array, object, Items, nil, cons, Fields, done, field,
}

abbrev pub bool_eqb : Bool → Bool → Bool
bool_eqb true true = true
bool_eqb false false = true
bool_eqb _ _ = false

module _ {N : Type 0} ⦃e : Eq N⦄ where
  unfoldable mutual
    pub value_eqb : Value N → Value N → Bool
    value_eqb null null = true
    value_eqb (bool a) (bool b) = bool_eqb a b
    value_eqb (number a) (number b) = a == b
    value_eqb (string a) (string b) = a == b
    value_eqb (array a) (array b) = items_eqb a b
    value_eqb (object a) (object b) = fields_eqb a b
    value_eqb _ _ = false

    pub items_eqb : Items N → Items N → Bool
    items_eqb nil nil = true
    items_eqb (cons v a) (cons w b) = value_eqb v w && items_eqb a b
    items_eqb _ _ = false

    pub fields_eqb : Fields N → Fields N → Bool
    fields_eqb done done = true
    fields_eqb (field j v a) (field k w b) = j == k && (value_eqb v w && fields_eqb a b)
    fields_eqb _ _ = false

  mutual
    unfolding value_eqb

    value_agree : (v w : Value N) → value_eqb v w ≡ true → v ≡ w
    value_agree null null h = refl
    value_agree (bool a) (bool b) h = ground arith
    value_agree (number a) (number b) h = ground (arith, e.sound a b)
    value_agree (string a) (string b) h = ground (arith, text_sound a b)
    value_agree (array a) (array b) h = ground (arith, items_agree a b)
    value_agree (object a) (object b) h = ground (arith, fields_agree a b)
    value_agree _ _ h = cc

    items_agree : (a b : Items N) → items_eqb a b ≡ true → a ≡ b
    items_agree nil nil h = refl
    items_agree (cons v a) (cons w b) h = ground (arith, value_agree v w, items_agree a b)
    items_agree _ _ h = cc

    fields_agree : (a b : Fields N) → fields_eqb a b ≡ true → a ≡ b
    fields_agree done done h = refl
    fields_agree (field j v a) (field k w b) h =
        let (hk, rest) = and_both (j == k) _ h in
        let (hv, hf) = and_both (value_eqb v w) _ rest in
        cc (text_sound j k hk, value_agree v w hv, fields_agree a b hf)
    fields_agree _ _ h = cc

  mutual
    unfolding value_eqb

    value_reflexive : (v : Value N) → value_eqb v v ≡ true
    value_reflexive null = refl
    value_reflexive (bool a) = ground arith
    value_reflexive (number a) = e.reflexive a
    value_reflexive (string a) = text-reflexive a
    value_reflexive (array a) = items_reflexive a
    value_reflexive (object a) = fields_reflexive a

    items_reflexive : (a : Items N) → items_eqb a a ≡ true
    items_reflexive nil = refl
    items_reflexive (cons v a) = ground (arith, value_reflexive v, items_reflexive a)

    fields_reflexive : (a : Fields N) → fields_eqb a a ≡ true
    fields_reflexive done = refl
    fields_reflexive (field k v a) =
        ground (arith, text-reflexive k, value_reflexive v, fields_reflexive a)

  pub value_sound : (v w : Value N) → value_eqb v w ≡ true → v ≡ w
  value_sound v w h = value_agree v w h

  pub items_sound : (a b : Items N) → items_eqb a b ≡ true → a ≡ b
  items_sound a b h = items_agree a b h

  pub fields_sound : (a b : Fields N) → fields_eqb a b ≡ true → a ≡ b
  fields_sound a b h = fields_agree a b h

  pub value-reflexive : (v : Value N) → value_eqb v v ≡ true
  value-reflexive v = value_reflexive v

instance abbrev pub json_eq : {N : Type 0} ⦃e : Eq N⦄ → Eq (Value N)
json_eq = record { eqb = value_eqb; sound = value_sound; reflexive = value-reflexive }
