-- ===== src/Matchmaker/Allowed.antt =====
-- Which queries and filters the matchmaker of crates/colyseus/src/matchmaker.rs lets through.
use colyseus_rs.Base.{
  ◌&&◌, not, Bool, true, false, Option, none, some, Text, text_sound, List, [], ◌∷◌, text, ◌==◌,
  text_eq, if◌then◌else◌, all, ◌≡◌, refl, sym, arith, Bool-cases, Option-cases, inl, inr, ◌↔◌, All,
  Eq,
}
use colyseus_rs.Base.Result.{ok, bind_ok}
use colyseus_rs.Driver.{Numbers, RoomQuery, RoomQueryResult}
use colyseus_rs.Driver.Store
use colyseus_rs.Matchmaker.{MatchMaker}
use colyseus_rs.Matchmaker.Fields.{
  FieldError, unknown_filter_field, unknown_sort_field, allowed_anywhere, allowed_field,
  check_fields, names_of, named, field_test, query_rooms,
}

check_fields-All :
    (test : Text → Bool) (unknown : Text → FieldError) (fs : List Text)
    → check_fields test unknown fs ≡ ok tt
    → All (λ f. test f ≡ true) fs
unfolding check_fields
check_fields-All test unknown [] h = tt
check_fields-All test unknown (f ∷ fs) h = elim (Bool-cases (test f)) [
  | inl allowed ↦ (allowed, check_fields-All test unknown fs (cc (h, allowed)))
  | inr refused ↦ absurd (cc (h, refused))
]

All-check_fields :
    (test : Text → Bool) (unknown : Text → FieldError) (fs : List Text)
    → All (λ f. test f ≡ true) fs
    → check_fields test unknown fs ≡ ok tt
unfolding check_fields
All-check_fields test unknown [] a = refl
All-check_fields test unknown (f ∷ fs) a = rw a.0 (All-check_fields test unknown fs a.1)

module _ {N : Type 0} where
  -- No test of the matchmaker lets `roomId` through.
  field_test-room_id :
      (mm : MatchMaker N) (name : Option Text) → field_test mm name (text "roomId") ≡ false
  unfolding allowed_anywhere allowed_field colyseus_rs.Base.text_eqb
  field_test-room_id mm none = refl
  field_test-room_id mm (some name) = refl

  field_ok :
      (mm : MatchMaker N) (name : Option Text) (f : Text)
      → field_test mm name f ≡ true
      → (f == text "roomId") ≡ false
  field_ok mm name f h = elim (Bool-cases (f == text "roomId")) [
    | inl same ↦
        let is = text_sound f (text "roomId") same in
        absurd (cc (h, is, field_test-room_id mm name))
    | inr differ ↦ differ
  ]

  fields_ok :
      (mm : MatchMaker N) (name : Option Text) (fs : List Text)
      → All (λ f. field_test mm name f ≡ true) fs
      → All (λ f. (field_test mm name f ≡ true) × ((f == text "roomId") ≡ false)) fs
  fields_ok mm name [] a = tt
  fields_ok mm name (f ∷ fs) a = ((a.0, field_ok mm name f a.0), fields_ok mm name fs a.1)

  module _ ⦃e : Eq N⦄ (num : Numbers N) where
    -- A query that the matchmaker answers is the driver's answer, filters and sorts only by fields that the
    -- room type allows, or every type where none is named, and never by `roomId`.
    pub query_rooms-allowed :
        (mm : MatchMaker N) (room_name : Option Text) (query : RoomQuery N) (r : RoomQueryResult N)
        → query_rooms num mm room_name query ≡ ok r
        → (r ≡ Store.query_rooms num mm.driver (named room_name query))
          × All
              (λ f.
                (field_test mm (named room_name query).name f ≡ true)
                × ((f == text "roomId") ≡ false))
              (names_of (named room_name query).conditions)
          × All
              (λ f.
                (field_test mm (named room_name query).name f ≡ true)
                × ((f == text "roomId") ≡ false))
              (names_of (named room_name query).sort)
    unfolding query_rooms
    query_rooms-allowed mm room_name query r h =
        let q = named room_name query in
        let test = field_test mm q.name in
        let (tt, filters, rest) =
          bind_ok (check_fields test unknown_filter_field (names_of q.conditions)) _ h in
        let (tt, sorts, answer) =
          bind_ok (check_fields test unknown_sort_field (names_of q.sort)) _ rest in
        (
          sym (cc answer),
          fields_ok mm q.name (names_of q.conditions)
              (check_fields-All test unknown_filter_field (names_of q.conditions) filters),
          fields_ok mm q.name (names_of q.sort)
              (check_fields-All test unknown_sort_field (names_of q.sort) sorts),
        )

    -- A query that filters and sorts only by allowed fields is answered.
    pub query_rooms-answered :
        (mm : MatchMaker N) (room_name : Option Text) (query : RoomQuery N)
        → All
            (λ f. field_test mm (named room_name query).name f ≡ true)
            (names_of (named room_name query).conditions)
        → All
            (λ f. field_test mm (named room_name query).name f ≡ true)
            (names_of (named room_name query).sort)
        → query_rooms num mm room_name query
          ≡ ok (Store.query_rooms num mm.driver (named room_name query))
    unfolding query_rooms
    query_rooms-answered mm room_name query filters sorts =
        let q = named room_name query in
        let test = field_test mm q.name in
        rw
          (
            All-check_fields test unknown_filter_field (names_of q.conditions) filters,
            All-check_fields test unknown_sort_field (names_of q.sort) sorts,
          )
          refl
