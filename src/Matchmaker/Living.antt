-- ===== src/Matchmaker/Living.antt =====
-- What `find_live` of crates/colyseus/src/matchmaker.rs chooses: the room that a creation with a unique key
-- reuses.
use colyseus_rs.Base.{
  All-weaken, ◌&&◌, Bool, true, false, none, Text, List, [], ◌∷◌, retain, All, ◌≡◌, refl, sym,
  subst, Bool-cases, inl, inr, Eq,
}
use colyseus_rs.Base.Maps.{lookup, is_some}
use colyseus_rs.Driver.{Numbers, RoomListing, Condition, RoomQuery}
use colyseus_rs.Driver.Store.{all_listings, query_rooms, remove, matches}
use colyseus_rs.Driver.Store.Laws.{Flattened}
use colyseus_rs.Driver.Store.Matching.{All-retain, retain-All, query_rooms-All, All-query_rooms}
use colyseus_rs.Matchmaker.{MatchMaker}
use colyseus_rs.Matchmaker.Rooms.{first, first_live, find_live}
use colyseus_rs.Matchmaker.Matching.{meets, Chosen, first-Chosen, both_true, not_both}

module _ {N : Type 0} where
  abbrev pub is_running : MatchMaker N → RoomListing N → Bool
  is_running mm l = is_some (lookup l.room_id mm.rooms)

module _ {N : Type 0} ⦃e : Eq N⦄ (num : Numbers N) where
  first_live-first :
      (ls : List (RoomListing N)) (mm : MatchMaker N)
      → (first_live num ls mm).0 ≡ first (retain (is_running mm) ls)
  unfolding first_live
  first_live-first [] mm = refl
  first_live-first (l ∷ ls) mm = elim (Bool-cases (is_running mm l)) [
    | inl running ↦ rw running refl
    | inr stale ↦
        rw stale (first_live-first ls (record mm { driver = (remove num mm.driver l.room_id).0 }))
  ]

  abbrev conditions_query : List (Text × Condition N) → RoomQuery N
  conditions_query conditions = record {
    name = none;
    conditions = conditions;
    sort = [];
    limit = none;
    offset = 0;
    count = false;
  }

  -- The room that a creation with a unique key reuses is listed, fulfils the conditions of the key and runs;
  -- none is found only where no listing does so, if the cached form of each listing is that of the listing.
  pub find_live_correct :
      (conditions : List (Text × Condition N)) (mm : MatchMaker N)
      → Flattened num mm.driver
      → Chosen num
          (λ l. meets num conditions l && is_running mm l)
          (all_listings num mm.driver)
          (find_live num conditions mm).0
  unfolding find_live matches
  find_live_correct conditions mm f =
      let ls = all_listings num mm.driver in
      let q = conditions_query conditions in
      let items = (query_rooms num mm.driver q).items in
      let eligible : RoomListing N → Bool = λ l. meets num conditions l && is_running mm l in
      subst (Chosen num eligible ls) (sym (first_live-first items mm)) (
        first-Chosen num eligible ls (retain (is_running mm) items)
          (All-weaken
            (λ l m. (m.0.0, both_true num (meets num conditions l) (is_running mm l) m.0.1 m.1))
            (retain (is_running mm) items)
            (All-retain _ (is_running mm) items (query_rooms-All num mm.driver q f)))
          (λ empty.
            All-weaken (λ l m. not_both num (meets num conditions l) (is_running mm l) m) ls
              (All-query_rooms num (λ l. is_running mm l ≡ true → false ≡ true) mm.driver q f
                (retain-All (λ l. false ≡ true) (is_running mm) items
                  (subst (All (λ l. false ≡ true)) (sym empty) tt)))))
