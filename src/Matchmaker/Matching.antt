-- ===== src/Matchmaker/Matching.antt =====
-- What `find_match` of crates/colyseus/src/matchmaker.rs chooses among the listings of the driver.
use mathlib.Core.List.{Memᴰ}
use colyseus_rs.Base.{
  All-weaken, ◌&&◌, subst, true, false, Bool, Option, none, some, Text, List, [], ◌∷◌, ◌++◌, retain,
  all, All, ◌≡◌, refl, sym, inl, inr, Eq, Option-cases,
}
use colyseus_rs.Json.{Value}
use colyseus_rs.Driver.{Numbers, RoomListing, Condition, to_flat_value}
use colyseus_rs.Driver.Compare.{resolve_path, matches_condition}
use colyseus_rs.Driver.Store.{all_listings, matches, query_rooms}
use colyseus_rs.Driver.Store.Laws.{Flattened}
use colyseus_rs.Matchmaker.{RegisteredHandler, MatchMaker}
use colyseus_rs.Matchmaker.Rooms.{find_match, match_query, passes, in_order, sorted_by, first}
use colyseus_rs.Driver.Store.Matching.{
  All-retain, All-sort_by, sort_by-All, retain-All, query_rooms-All, All-query_rooms,
}

module _ {N : Type 0} ⦃e : Eq N⦄ (num : Numbers N) where
  -- The listing fulfils every condition.
  abbrev pub meets : List (Text × Condition N) → RoomListing N → Bool
  meets cs l =
      all
        (λ (c : Text × Condition N).
          matches_condition num (resolve_path (to_flat_value num l) c.0) c.1)
        cs

  -- The listing may be chosen for these criteria.
  abbrev pub is_eligible :
      RegisteredHandler N → List (Text × Condition N) → Value N → RoomListing N → Bool
  is_eligible h conditions options l = meets conditions l && passes h options l

  -- A choice among listings: one of them that is eligible, or none where none is.
  abbrev pub Chosen :
      (RoomListing N → Bool) → List (RoomListing N) → Option (RoomListing N) → Type 0
  Chosen eligible ls none = All (λ l. eligible l ≡ false) ls
  Chosen eligible ls (some l) = Memᴰ l ls × (eligible l ≡ true)

  in_order-All :
      (P : RoomListing N → Type 0) (h : RegisteredHandler N) (ls : List (RoomListing N))
      → All P ls
      → All P (in_order h ls)
  in_order-All P h ls a = elim (Option-cases h.match_sort_fn) [
    | inl unsorted ↦ rw (unsorted, in_order) a
    | inr (compare, sorted) ↦ rw (sorted, in_order) (All-sort_by P compare ls a)
  ]

  All-in_order :
      (P : RoomListing N → Type 0) (h : RegisteredHandler N) (ls : List (RoomListing N))
      → All P (in_order h ls)
      → All P ls
  All-in_order P h ls a = elim (Option-cases h.match_sort_fn) [
    | inl unsorted ↦ subst (λ f. All P (sorted_by f ls)) unsorted a
    | inr (compare, sorted) ↦
        sort_by-All P compare ls (subst (λ f. All P (sorted_by f ls)) sorted a)
  ]

  pub first-Chosen :
      (eligible : RoomListing N → Bool) (ls xs : List (RoomListing N))
      → All (λ l. Memᴰ l ls × (eligible l ≡ true)) xs
      → (xs ≡ [] → All (λ l. eligible l ≡ false) ls)
      → Chosen eligible ls (first xs)
  first-Chosen eligible ls [] a h = h refl
  first-Chosen eligible ls (x ∷ xs) a h = a.0

  pub both_true : (a b : Bool) → a ≡ true → b ≡ true → (a && b) ≡ true
  both_true true b h k = k
  both_true false b h k = cc

  pub not_both : (a b : Bool) → (a ≡ true → b ≡ true → false ≡ true) → (a && b) ≡ false
  not_both true true h = sym (h refl refl)
  not_both true false h = refl
  not_both false b h = refl

  -- `find_match` chooses a listing of the driver that fulfils the conditions and the filter and passes the
  -- room type's predicate, and finds none only where no listing does, whatever the order of the room type,
  -- if the cached form of each listing is that of the listing.
  pub find_match_correct :
      (h : RegisteredHandler N) (conditions filter : List (Text × Condition N)) (options : Value N)
      (mm : MatchMaker N)
      → Flattened num mm.driver
      → Chosen
          (is_eligible h (conditions ++ filter) options)
          (all_listings num mm.driver)
          (find_match num h conditions filter options mm)
  unfolding find_match match_query matches
  find_match_correct h conditions filter options mm f =
      let ls = all_listings num mm.driver in
      let q = match_query h conditions filter in
      let items = (query_rooms num mm.driver q).items in
      let kept = retain (passes h options) items in
      first-Chosen (is_eligible h (conditions ++ filter) options) ls (in_order h kept)
        (in_order-All _ h kept (
          All-weaken
            (λ l m.
              (m.0.0, both_true (meets (conditions ++ filter) l) (passes h options l) m.0.1 m.1))
            kept (All-retain _ (passes h options) items (query_rooms-All num mm.driver q f))))
        (λ empty.
          All-weaken (λ l m. not_both (meets (conditions ++ filter) l) (passes h options l) m) ls
            (All-query_rooms num (λ l. passes h options l ≡ true → false ≡ true) mm.driver q f
              (retain-All (λ l. false ≡ true) (passes h options) items
                (All-in_order (λ l. false ≡ true) h kept
                  (subst (All (λ l. false ≡ true)) (sym empty) tt)))))
