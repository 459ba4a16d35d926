-- ===== src/Tests/DriverRuns.antt =====
-- Runs of the driver with two rooms.
use colyseus_rs.Base.{
  ℕ, arith, true, false, nat_eq, text_eq, none, some, [], ◌∷◌, text, ◌≡◌, refl, text_eqb,
}
use colyseus_rs.Base.Maps.{lookup}
use colyseus_rs.Base.Result.{ok, err}
use colyseus_rs.Driver.Query.{
  parse_condition, parse_filter, condition, rsplit_once, field_and_suffix, suffix_condition,
  suffix_of, parse_value, parse_bool, invalid_sort_key,
}
use colyseus_rs.Driver.Query.Builder
use colyseus_rs.Driver.Query.Params.{from_params, trim, sort_keys, parse_sort, default_query}
use colyseus_rs.Driver.Compare.{split}
use colyseus_rs.Base.Decimal.{parse_usize}
use colyseus_rs.Driver.Query.Operators.{not_exists_forms}
use colyseus_rs.Driver.{exists, not_exists}
use colyseus_rs.Json.{bool, string, object, field, done}
use colyseus_rs.Driver.{RoomListing}
use colyseus_rs.Driver.{RoomQuery}
use colyseus_rs.Driver.Store.Pages.{pages, listings, pages-ranked}
use colyseus_rs.Driver.Store.{
  ranked, matched, matches, LocalDriver, entry, get, insert, remove, update_by_id,
}
use colyseus_rs.Driver.Store.Laws.{
  IsConsistent, driver_step, driver_step-IsConsistent, get-driver_step, inserts,
}
use colyseus_rs.Tests.RoomRuns.{plain_numbers}

abbrev pub listing : ℕ → RoomListing ℕ
listing n = record {
  room_id = text "a";
  name = text "chat";
  process_id = [];
  clients = n;
  max_clients = none;
  locked = false;
  is_private = false;
  metadata = none;
  created_at = 0;
  extra = done;
}

abbrev pub one_room : LocalDriver ℕ
one_room = (text "a", entry plain_numbers (listing 1)) ∷ []

one_room-IsConsistent : IsConsistent plain_numbers one_room
one_room-IsConsistent = record { distinct = (tt, tt); flattened = (refl, tt) }

abbrev join_one : RoomListing ℕ → RoomListing ℕ
join_one l = listing 2

driver_step-IsConsistent_example :
    IsConsistent plain_numbers (driver_step plain_numbers one_room (inserts (listing 3)))
driver_step-IsConsistent_example =
    driver_step-IsConsistent plain_numbers one_room (inserts (listing 3)) one_room-IsConsistent

get-driver_step_example :
    (get plain_numbers (insert plain_numbers one_room (listing 3)) (text "a") ≡ some (listing 3))
    × (get plain_numbers (remove plain_numbers one_room (text "a")).0 (text "a") ≡ none)
    × ((remove plain_numbers one_room (text "a")).1 ≡ true)
    × (get plain_numbers (update_by_id plain_numbers one_room (text "a") join_one).0 (text "a")
        ≡ some (listing 2))
    × ((update_by_id plain_numbers one_room (text "a") join_one).1 ≡ true)
unfolding get lookup text_eqb
get-driver_step_example =
    get-driver_step plain_numbers one_room (text "a") (text "a") (listing 3) join_one
      one_room-IsConsistent

abbrev everything : RoomQuery ℕ
everything = record {
  name = none;
  conditions = [];
  sort = [];
  limit = some 1;
  offset = 0;
  count = false;
}

abbrev two_rooms : LocalDriver ℕ
two_rooms = (text "b", entry plain_numbers (listing 2)) ∷ one_room

pages-ranked_example :
    pages plain_numbers two_rooms 3 everything
    ≡ listings plain_numbers two_rooms (ranked plain_numbers two_rooms everything)
unfolding ranked matched matches
pages-ranked_example =
    pages-ranked plain_numbers two_rooms 3 0 everything refl refl (omega arith) (omega arith)

not_exists_forms_example :
    (parse_condition plain_numbers (text "slug.notExists") (text "true")
      ≡ ok (text "slug", condition exists none))
    × (parse_filter
          (object (field (text "slug") (object (field (text "notExists") (bool true) done)) done))
        ≡ ok ((text "slug", condition {N = ℕ} not_exists none) ∷ []))
not_exists_forms_example = not_exists_forms plain_numbers b's' (text "lug")

-- The parser of HTTP parameters and the builder make the same query.
parsed_as_built :
    from_params plain_numbers (
      (text "name", text "chat")
      ∷ (text "slug", text "abc")
      ∷ (text "sort", text " createdAt:desc,, clients:1")
      ∷ (text "mode.exists", text "true")
      ∷ (text "limit", text "25")
      ∷ (text "offset", text "5")
      ∷ (text "count", text "true")
      ∷ [])
    ≡ ok (
        Builder.count_only (
          Builder.offset 5 (
            Builder.limit 25 (
              Builder.condition (text "mode") (condition exists none) (
                Builder.sort (text "clients") false (
                  Builder.sort (text "createdAt") true (
                    Builder.filter
                      (text "slug")
                      (string (text "abc"))
                      (Builder.name (text "chat") default_query))))))))
unfolding from_params suffix_of trim sort_keys parse_sort rsplit_once split parse_usize
    parse_condition field_and_suffix suffix_condition parse_value parse_bool text_eqb
parsed_as_built = refl

-- A colon alone names no field.
empty_sort_field : parse_sort (text "a,:asc") ≡ err (invalid_sort_key (text ":asc"))
unfolding trim sort_keys parse_sort rsplit_once split text_eqb
empty_sort_field = refl
