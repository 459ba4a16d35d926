-- ===== src/Driver/Query/Operators.antt =====
-- The two forms of a condition against each other.
use colyseus_rs.Base.{
  ℕ, true, none, some, Text, [], ◌∷◌, ◌++◌, text, text_eq, ◌≡◌, refl, arith, text_eqb,
}
use colyseus_rs.Base.Result.{ok}
use colyseus_rs.Json.{bool, object, done, field}
use colyseus_rs.Driver.{Numbers, not_exists, exists}
use colyseus_rs.Driver.Query.{
  rsplit_once, field_and_suffix, suffix_of, parse_bool, parse_condition, parse_filter,
  suffix_condition, condition, operator_conditions, operator_condition, field_conditions,
}

-- A last part without the separator is split off, whatever stands before it.
pub rsplit_once-append :
    (c : ℕ) (s t : Text) → rsplit_once c t ≡ none → rsplit_once c (s ++ c ∷ t) ≡ some (s, t)
unfolding rsplit_once
rsplit_once-append c [] t h = rw (h, rsplit_once) (ground arith)
rsplit_once-append c (x ∷ s) t h = rw (rsplit_once-append c s t h, rsplit_once) refl

module _ {N : Type 0} (num : Numbers N) where
  -- For a field that is not empty, the query parameter `field.notExists=true` asks that the field is
  -- there, where the filter `{ field: { notExists: true } }` asks that it is not.
  pub not_exists_forms :
      (x : ℕ) (name : Text)
      → (parse_condition num ((x ∷ name) ++ text ".notExists") (text "true")
          ≡ ok (x ∷ name, condition exists none))
        × (parse_filter
              (object (field (x ∷ name) (object (field (text "notExists") (bool true) done)) done))
            ≡ ok ((x ∷ name, condition {N = N} not_exists none) ∷ []))
  unfolding parse_condition parse_filter field_and_suffix suffix_of parse_bool suffix_condition
      operator_conditions operator_condition field_conditions rsplit_once text_eqb
  not_exists_forms x name =
      (rw (rsplit_once-append b'.' (x ∷ name) (text "notExists") refl, field_and_suffix) refl, refl)
