-- ===== src/Base/Maps.antt =====
-- Maps keyed by text, as association lists, with the laws of `HashMap` and `DashMap`.
use colyseus_rs.Base.Tests.{if◌then◌else◌, ◌==◌, Bool-cases}
use colyseus_rs.Base.Lists.{length, All}
use colyseus_rs.Base.Strings.{Text, text_eq, text_sound, text-reflexive}
use Prim.Native.Nat.{suc, ◌≤◌}
use mathlib.Core.Path.{◌≡◌, refl, ap, subst}
use mathlib.Core.Logic.{inl, inr}
use mathlib.Core.Bool.{Bool, true, false}
use mathlib.Core.Option.{Option, none, some}
use mathlib.Core.List.{List, [], ◌∷◌}
use native.Mathlib.Omega.{arith}

eqb_sym : (j k : Text) → (j == k) ≡ false → (k == j) ≡ false
eqb_sym j k h = ground (arith, text_sound k j, text-reflexive j)

module _ {A : Type 0} where
  unfoldable pub lookup : Text → List (Text × A) → Option A
  lookup k [] = none
  lookup k ((j, a) ∷ m) = if k == j then some a else lookup k m

  unfoldable pub put : Text → A → List (Text × A) → List (Text × A)
  put k a [] = (k, a) ∷ []
  put k a ((j, b) ∷ m) = if k == j then (k, a) ∷ m else (j, b) ∷ put k a m

  unfoldable pub erase : Text → List (Text × A) → List (Text × A)
  erase k [] = []
  erase k ((j, b) ∷ m) = if k == j then m else (j, b) ∷ erase k m

  abbrev pub is_some : Option A → Bool
  is_some none = false
  is_some (some a) = true

  pub lookup-put :
      (j k : Text) (a : A) (m : List (Text × A))
      → lookup j (put k a m) ≡ (if j == k then some a else lookup j m)
  unfolding lookup put
  lookup-put j k a [] = refl
  lookup-put j k a ((i, b) ∷ m) =
      ground (
        arith,
        text_sound j k,
        text_sound k i,
        text_sound j i,
        text-reflexive j,
        lookup-put j k a m,
      )

  -- No key stands twice.
  abbrev pub Fresh : Text → List (Text × A) → Type 0
  Fresh k [] = Unit
  Fresh k ((j, b) ∷ m) = ((k == j) ≡ false) × Fresh k m

  abbrev pub Distinct : List (Text × A) → Type 0
  Distinct [] = Unit
  Distinct ((k, a) ∷ m) = Fresh k m × Distinct m

  pub lookup-Fresh : (k : Text) (m : List (Text × A)) → Fresh k m → lookup k m ≡ none
  unfolding lookup
  lookup-Fresh k [] f = refl
  lookup-Fresh k ((j, b) ∷ m) f = ground (arith, lookup-Fresh k m f.1)

  pub lookup-erase :
      (j k : Text) (m : List (Text × A))
      → Distinct m
      → lookup j (erase k m) ≡ (if j == k then none else lookup j m)
  unfolding lookup erase
  lookup-erase j k [] d = ground arith
  lookup-erase j k ((i, b) ∷ m) d = ground (
    arith,
    text_sound j k,
    text_sound k i,
    text_sound j i,
    text-reflexive j,
    lookup-erase j k m d.1,
    lookup-Fresh i m d.0,
  )

  Fresh-put :
      (j k : Text) (a : A) (m : List (Text × A))
      → (j == k) ≡ false
      → Fresh j m
      → Fresh j (put k a m)
  unfolding put
  Fresh-put j k a [] h f = (h, tt)
  Fresh-put j k a ((i, b) ∷ m) h f = ground (arith, Fresh-put j k a m h f.1)

  pub put-Distinct : (k : Text) (a : A) (m : List (Text × A)) → Distinct m → Distinct (put k a m)
  unfolding put
  put-Distinct k a [] d = (tt, tt)
  put-Distinct k a ((i, b) ∷ m) d = elim (Bool-cases (k == i)) [
    | inl same ↦ let e = text_sound k i same in rw same (rw e d)
    | inr differ ↦ rw differ (Fresh-put i k a m (eqb_sym k i differ) d.0, put-Distinct k a m d.1)
  ]

  pub Fresh-erase : (j k : Text) (m : List (Text × A)) → Fresh j m → Fresh j (erase k m)
  unfolding erase
  Fresh-erase j k [] f = tt
  Fresh-erase j k ((i, b) ∷ m) f = ground (arith, Fresh-erase j k m f.1)

  pub erase-Distinct : (k : Text) (m : List (Text × A)) → Distinct m → Distinct (erase k m)
  unfolding erase
  erase-Distinct k [] d = tt
  erase-Distinct k ((i, b) ∷ m) d = ground (arith, Fresh-erase i k m d.0, erase-Distinct k m d.1)

module _ {A : Type 0} where
  pub length-put : (k : Text) (a : A) (m : List (Text × A)) → length (put k a m) ≤ suc (length m)
  unfolding put
  length-put k a [] = omega arith
  length-put k a ((j, b) ∷ m) = ground (arith, length-put k a m)

  pub length-erase :
      (k : Text) (m : List (Text × A))
      → is_some (lookup k m) ≡ true
      → length m ≡ suc (length (erase k m))
  unfolding lookup erase
  length-erase k [] known = cc
  length-erase k ((j, b) ∷ m) known = elim (Bool-cases (k == j)) [
    | inl same ↦ ground (arith, same)
    | inr differ ↦ ground (arith, differ, length-erase k m)
  ]

  pub length-put_new :
      (k : Text) (a : A) (m : List (Text × A))
      → lookup k m ≡ none
      → length (put k a m) ≡ suc (length m)
  unfolding lookup put
  length-put_new k a [] new = omega arith
  length-put_new k a ((j, b) ∷ m) new = elim (Bool-cases (k == j)) [
    | inl same ↦ absurd (cc (new, same))
    | inr differ ↦ rw differ (ap suc (length-put_new k a m (cc (new, differ))))
  ]

  pub lookup-erase_new :
      (k j : Text) (m : List (Text × A)) → lookup k m ≡ none → lookup k (erase j m) ≡ none
  unfolding lookup erase
  lookup-erase_new k j [] new = refl
  lookup-erase_new k j ((i, b) ∷ m) new = elim (Bool-cases (k == i)) [
    | inl same ↦ absurd (cc (new, same))
    | inr differ ↦ elim (Bool-cases (j == i)) [
      | inl gone ↦ rw gone (cc (new, differ))
      | inr stays ↦ rw (stays, differ) (lookup-erase_new k j m (cc (new, differ)))
    ]
  ]

  pub All-put :
      (P : Text × A → Type 0) (k : Text) (a : A) (m : List (Text × A))
      → P (k, a)
      → All P m
      → All P (put k a m)
  unfolding put
  All-put P k a [] p h = (p, tt)
  All-put P k a ((j, b) ∷ m) p h = elim (Bool-cases (k == j)) [
    | inl same ↦ rw same (p, h.1)
    | inr differ ↦ rw differ (h.0, All-put P k a m p h.1)
  ]

  pub All-erase :
      (P : Text × A → Type 0) (k : Text) (m : List (Text × A)) → All P m → All P (erase k m)
  unfolding erase
  All-erase P k [] h = tt
  All-erase P k ((j, b) ∷ m) h = elim (Bool-cases (k == j)) [
    | inl same ↦ rw same h.1
    | inr differ ↦ rw differ (h.0, All-erase P k m h.1)
  ]

  pub lookup-All :
      (P : Text × A → Type 0) (k : Text) (m : List (Text × A)) {a : A}
      → All P m
      → lookup k m ≡ some a
      → P (k, a)
  unfolding lookup
  lookup-All P k [] h found = cc
  lookup-All P k ((j, b) ∷ m) h found = elim (Bool-cases (k == j)) [
    | inl same ↦ subst P (cc (text_sound k j same, found, same)) h.0
    | inr differ ↦ lookup-All P k m h.1 (cc (found, differ))
  ]
