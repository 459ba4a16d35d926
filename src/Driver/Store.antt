-- ===== src/Driver/Store.antt =====
-- `LocalDriver` of crates/colyseus/src/driver.rs. The `DashMap` is the list of its entries, in the order
-- of its iteration, which nothing here relies on.
pub mod Laws
pub mod Matching
pub mod Pages
use Prim.Native.Nat.{Ordering}
use colyseus_rs.Base.{
  ℕ, ◌+◌, Bool, true, false, ◌&&◌, Option, none, some, Text, List, [], ◌∷◌, text, ◌==◌, text_eq,
  if◌then◌else◌, all, Eq, ltb, min, map, length, take, drop, retain, text_eqb,
}
use colyseus_rs.Base.Maps.{lookup, put, erase, is_some}
use colyseus_rs.Json.{Value, string}
use colyseus_rs.Driver.{
  Numbers, RoomListing, Direction, SortOptions, Condition, condition_eq, RoomQuery, RoomQueryResult,
  to_flat_value,
}
use colyseus_rs.Driver.Compare.{resolve_path, member, matches_condition, listing_cmp, is_greater}

pub record ListingEntry (N : Type 0) : Type 0 where
  pub listing : RoomListing N
  pub flat : Value N

abbrev pub LocalDriver : Type 0 → Type 0
LocalDriver N = List (Text × ListingEntry N)

-- A stable sort by comparison, as `slice::sort_by` is.
module _ {A : Type 0} (cmp : A → A → Ordering) where
  unfoldable pub insert_by : A → List A → List A
  insert_by x [] = x ∷ []
  insert_by x (y ∷ ys) =
      let rest = insert_by x ys in if is_greater (cmp x y) then y ∷ rest else x ∷ y ∷ ys

  unfoldable pub sort_by : List A → List A
  sort_by [] = []
  sort_by (x ∷ xs) = insert_by x (sort_by xs)

module _ {N : Type 0} (num : Numbers N) where
  -- `ListingEntry::new`
  abbrev pub entry : RoomListing N → ListingEntry N
  entry l = record { listing = l; flat = to_flat_value num l }

  listing_of : Option (ListingEntry N) → Option (RoomListing N)
  listing_of none = none
  listing_of (some e) = some e.listing

  unfoldable pub get : LocalDriver N → Text → Option (RoomListing N)
  unfolding listing_of
  get d room_id = listing_of (lookup room_id d)

  unfoldable pub insert : LocalDriver N → RoomListing N → LocalDriver N
  insert d l = put l.room_id (entry l) d

  -- The entry keeps its key, whatever `f` does to the room id of the listing.
  unfoldable pub update_by_id :
      LocalDriver N → Text → (RoomListing N → RoomListing N) → LocalDriver N × Bool
  update_by_id d room_id f = elim (lookup room_id d) [
    | none ↦ (d, false)
    | some e ↦ (put room_id (entry (f e.listing)) d, true)
  ]

  unfoldable pub remove : LocalDriver N → Text → LocalDriver N × Bool
  remove d room_id = (erase room_id d, is_some (lookup room_id d))

  unfoldable pub all_listings : LocalDriver N → List (RoomListing N)
  all_listings [] = []
  all_listings ((k, e) ∷ d) = e.listing ∷ all_listings d

  pub clear : LocalDriver N → LocalDriver N
  clear d = []

  module _ ⦃e : Eq N⦄ where
    has_name : Option Text → Value N → Bool
    has_name none flat = true
    has_name (some name) flat = elim (member (text "name") flat) [
      | some (string s) ↦ s == name
      | _ ↦ false
    ]

    -- The closure of `filter` in `query_rooms`.
    unfoldable pub matches : RoomQuery N → Value N → Bool
    unfolding has_name
    matches query flat =
        has_name query.name flat
        && all (λ (c : Text × Condition N). matches_condition num (resolve_path flat c.0) c.1)
            query.conditions

    unfoldable pub matched : LocalDriver N → RoomQuery N → List (ListingEntry N)
    matched [] query = []
    matched ((k, entry) ∷ d) query =
        let rest = matched d query in if matches query entry.flat then entry ∷ rest else rest

    -- `sort_listings`, behind its `if`: with no sort keys nothing is greater.
    unfoldable pub sort_listings : SortOptions → List (ListingEntry N) → List (ListingEntry N)
    sort_listings sort entries = sort_by (λ a b. listing_cmp num sort a.flat b.flat) entries

    abbrev pub is_empty : SortOptions → Bool
    is_empty [] = true
    is_empty _ = false

    abbrev pub take_limit : Option ℕ → List (ListingEntry N) → List (ListingEntry N)
    take_limit none entries = entries
    take_limit (some limit) entries = take limit entries

    unfoldable pub ranked : LocalDriver N → RoomQuery N → List (ListingEntry N)
    ranked d query =
        if is_empty query.sort then matched d query else sort_listings query.sort (matched d query)

    -- The page of the ranked entries that `query_rooms` returns.
    unfoldable pub page : List (ListingEntry N) → Option ℕ → ℕ → Bool → RoomQueryResult N
    page entries limit offset true = record {
      items = [];
      total = length entries;
      limit = limit;
      offset = offset;
      next_offset = none;
    }
    page entries limit offset false =
        let total = length entries in
        let start = min offset total in
        let items =
          map (λ (a : ListingEntry N). a.listing) (take_limit limit (drop start entries)) in
        let next = start + length items in
        record {
          items = items;
          total = total;
          limit = limit;
          offset = start;
          next_offset = if ltb next total then some next else none;
        }

    unfoldable pub query_rooms : LocalDriver N → RoomQuery N → RoomQueryResult N
    query_rooms d query = page (ranked d query) query.limit query.offset query.count

    conditions_of : List (Text × Value N) → List (Text × Condition N)
    conditions_of [] = []
    conditions_of ((field, v) ∷ cs) = (field, condition_eq v) ∷ conditions_of cs

    sort_or_default : Option SortOptions → SortOptions
    sort_or_default none = []
    sort_or_default (some s) = s

    -- `Driver::query` and `Driver::find_one`, the provided methods of the trait.
    unfoldable pub query :
        LocalDriver N → List (Text × Value N) → Option SortOptions → List (RoomListing N)
    unfolding conditions_of sort_or_default
    query d conditions sort =
        (query_rooms d (record {
          name = none;
          conditions = conditions_of conditions;
          sort = sort_or_default sort;
          limit = none;
          offset = 0;
          count = false;
        })).items

    head_of : List (RoomListing N) → Option (RoomListing N)
    head_of [] = none
    head_of (l ∷ ls) = some l

    unfoldable pub find_one :
        LocalDriver N → List (Text × Value N) → Option SortOptions → Option (RoomListing N)
    unfolding head_of
    find_one d conditions sort = head_of (query d conditions sort)
