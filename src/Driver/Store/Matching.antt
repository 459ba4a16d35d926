-- ===== src/Driver/Store/Matching.antt =====
-- Which listings a query of the `LocalDriver` of crates/colyseus/src/driver.rs returns: a predicate on
-- them, and on the listings that it matches.
use Prim.Native.Nat.{Ordering}
use mathlib.Core.List.{Memᴰ}
use mathlib.Core.List.Memᴰ.{head, tail}
use colyseus_rs.Base.{
  All-weaken, subst, ◌∙◌, true, false, Bool, none, List, [], ◌∷◌, map, retain, All, if◌then◌else◌,
  ◌≡◌, refl, sym, ap, Bool-cases, inl, inr, Eq, drop-min-length,
}
use colyseus_rs.Driver.{Numbers, RoomListing, RoomQuery, to_flat_value}
use colyseus_rs.Driver.Compare.{is_greater, listing_cmp}
use colyseus_rs.Driver.Store.{
  LocalDriver, ListingEntry, all_listings, insert_by, sort_by, sort_listings, matched, matches,
  ranked, page, query_rooms, is_empty,
}
use colyseus_rs.Driver.Store.Laws.{Flattened}

module _ {A : Type 0} where
  pub All-retain :
      (P : A → Type 0) (p : A → Bool) (xs : List A)
      → All P xs
      → All (λ x. P x × (p x ≡ true)) (retain p xs)
  All-retain P p [] a = tt
  All-retain P p (x ∷ xs) a = elim (Bool-cases (p x)) [
    | inl holds ↦ rw holds ((a.0, holds), All-retain P p xs a.1)
    | inr fails ↦ rw fails (All-retain P p xs a.1)
  ]

  All-insert_by :
      (P : A → Type 0) (cmp : A → A → Ordering) (x : A) (ys : List A)
      → P x
      → All P ys
      → All P (insert_by cmp x ys)
  unfolding insert_by
  All-insert_by P cmp x [] p a = (p, tt)
  All-insert_by P cmp x (y ∷ ys) p a = elim (Bool-cases (is_greater (cmp x y))) [
    | inl holds ↦ rw holds (a.0, All-insert_by P cmp x ys p a.1)
    | inr fails ↦ rw fails (p, a)
  ]

  pub All-sort_by :
      (P : A → Type 0) (cmp : A → A → Ordering) (xs : List A) → All P xs → All P (sort_by cmp xs)
  unfolding sort_by
  All-sort_by P cmp [] a = tt
  All-sort_by P cmp (x ∷ xs) a =
      All-insert_by P cmp x (sort_by cmp xs) a.0 (All-sort_by P cmp xs a.1)

  insert_by-All :
      (P : A → Type 0) (cmp : A → A → Ordering) (x : A) (ys : List A)
      → All P (insert_by cmp x ys)
      → P x × All P ys
  unfolding insert_by
  insert_by-All P cmp x [] a = a
  insert_by-All P cmp x (y ∷ ys) a = elim (Bool-cases (is_greater (cmp x y))) [
    | inl holds ↦
        let b : P y × All P (insert_by cmp x ys) =
          subst (λ (t : Bool). All P (if t then y ∷ insert_by cmp x ys else x ∷ y ∷ ys)) holds a in
        let c = insert_by-All P cmp x ys b.1 in (c.0, (b.0, c.1))
    | inr fails ↦
        let b : P x × (P y × All P ys) =
          subst (λ (t : Bool). All P (if t then y ∷ insert_by cmp x ys else x ∷ y ∷ ys)) fails a in
        b
  ]

  pub sort_by-All :
      (P : A → Type 0) (cmp : A → A → Ordering) (xs : List A) → All P (sort_by cmp xs) → All P xs
  unfolding sort_by
  sort_by-All P cmp [] a = tt
  sort_by-All P cmp (x ∷ xs) a =
      let b = insert_by-All P cmp x (sort_by cmp xs) a in (b.0, sort_by-All P cmp xs b.1)

  pub retain-All :
      (P : A → Type 0) (p : A → Bool) (xs : List A)
      → All P (retain p xs)
      → All (λ x. p x ≡ true → P x) xs
  retain-All P p [] a = tt
  retain-All P p (x ∷ xs) a = elim (Bool-cases (p x)) [
    | inl holds ↦
        let b : P x × All P (retain p xs) =
          subst (λ (t : Bool). All P (if t then x ∷ retain p xs else retain p xs)) holds a in
        ((λ h. b.0), retain-All P p xs b.1)
    | inr fails ↦
        let b : All P (retain p xs) =
          subst (λ (t : Bool). All P (if t then x ∷ retain p xs else retain p xs)) fails a in
        ((λ h. absurd (cc)), retain-All P p xs b)
  ]

module _ {A B : Type 0} where
  All-map : (P : B → Type 0) (f : A → B) (xs : List A) → All (λ x. P (f x)) xs → All P (map f xs)
  All-map P f [] a = tt
  All-map P f (x ∷ xs) a = (a.0, All-map P f xs a.1)

  map-All : (P : B → Type 0) (f : A → B) (xs : List A) → All P (map f xs) → All (λ x. P (f x)) xs
  map-All P f [] a = tt
  map-All P f (x ∷ xs) a = (a.0, map-All P f xs a.1)

module _ {N : Type 0} ⦃e : Eq N⦄ (num : Numbers N) where
  -- What the query's entries satisfy.
  matched-All :
      (d : LocalDriver N) (q : RoomQuery N)
      → Flattened num d
      → All
          (λ x.
            Memᴰ x.listing (all_listings num d)
            × (matches num q (to_flat_value num x.listing) ≡ true))
          (matched num d q)
  unfolding matched all_listings
  matched-All [] q f = tt
  matched-All ((k, x) ∷ d) q f =
      let rest =
        All-weaken
          (λ (y : ListingEntry N)
              (m : Memᴰ y.listing (all_listings num d)
                × (matches num q (to_flat_value num y.listing) ≡ true)).
            (tail m.0, m.1))
          (matched num d q) (matched-All d q f.1) in
      elim (Bool-cases (matches num q x.flat)) [
        | inl holds ↦ rw holds ((head refl, ap (matches num q) (sym f.0) ∙ holds), rest)
        | inr fails ↦ rw fails rest
      ]

  -- A predicate on the query's entries holds of every listing that the query matches.
  All-matched :
      (P : RoomListing N → Type 0) (d : LocalDriver N) (q : RoomQuery N)
      → Flattened num d
      → All (λ x. P x.listing) (matched num d q)
      → All (λ l. matches num q (to_flat_value num l) ≡ true → P l) (all_listings num d)
  unfolding matched all_listings
  All-matched P [] q f a = tt
  All-matched P ((k, x) ∷ d) q f a = elim (Bool-cases (matches num q x.flat)) [
    | inl holds ↦
        let b : P x.listing × All (λ y. P y.listing) (matched num d q) =
          subst
            (λ (t : Bool).
              All (λ (y : ListingEntry N). P y.listing)
                (if t then x ∷ matched num d q else matched num d q))
            holds a in
        ((λ h. b.0), All-matched P d q f.1 b.1)
    | inr fails ↦
        let b : All (λ y. P y.listing) (matched num d q) =
          subst
            (λ (t : Bool).
              All (λ (y : ListingEntry N). P y.listing)
                (if t then x ∷ matched num d q else matched num d q))
            fails a in
        ((λ h. absurd (cc (h, fails, f.0))), All-matched P d q f.1 b)
  ]

  page-items :
      (xs : List (ListingEntry N)) → (page num xs none 0 false).items ≡ map (λ x. x.listing) xs
  unfolding page
  page-items xs = ap (map (λ (x : ListingEntry N). x.listing)) (drop-min-length 0 xs)

  ranked-All :
      (P : ListingEntry N → Type 0) (d : LocalDriver N) (q : RoomQuery N)
      → All P (matched num d q)
      → All P (ranked num d q)
  unfolding ranked sort_listings
  ranked-All P d q a = elim (Bool-cases (is_empty num q.sort)) [
    | inl holds ↦ rw holds a
    | inr fails ↦
        rw fails (All-sort_by P (λ a b. listing_cmp num q.sort a.flat b.flat) (matched num d q) a)
  ]

  All-ranked :
      (P : ListingEntry N → Type 0) (d : LocalDriver N) (q : RoomQuery N)
      → All P (ranked num d q)
      → All P (matched num d q)
  unfolding ranked sort_listings
  All-ranked P d q a = elim (Bool-cases (is_empty num q.sort)) [
    | inl holds ↦
        subst
          (λ (t : Bool). All P (
            if t
            then matched num d q
            else sort_by (λ a b. listing_cmp num q.sort a.flat b.flat) (matched num d q)))
          holds a
    | inr fails ↦
        sort_by-All P (λ a b. listing_cmp num q.sort a.flat b.flat) (matched num d q)
          (subst
            (λ (t : Bool). All P (
              if t
              then matched num d q
              else sort_by (λ a b. listing_cmp num q.sort a.flat b.flat) (matched num d q)))
            fails a)
  ]

  -- Every listing that a query without a limit returns is in the driver and matches the query.
  pub query_rooms-All :
      (d : LocalDriver N) (q : RoomQuery N)
      → Flattened num d
      → All
          (λ l. Memᴰ l (all_listings num d) × (matches num q (to_flat_value num l) ≡ true))
          (query_rooms num d (record q { limit = none; offset = 0; count = false })).items
  unfolding query_rooms matches
  query_rooms-All d q f =
      let r = record q { limit = none; offset = 0; count = false } in
      subst (All (λ l. Memᴰ l (all_listings num d) × (matches num r (to_flat_value num l) ≡ true)))
        (sym (page-items (ranked num d r)))
        (All-map _ (λ x. x.listing) (ranked num d r) (ranked-All _ d r (matched-All d r f)))

  pub All-query_rooms :
      (P : RoomListing N → Type 0) (d : LocalDriver N) (q : RoomQuery N)
      → Flattened num d
      → All P (query_rooms num d (record q { limit = none; offset = 0; count = false })).items
      → All (λ l. matches num q (to_flat_value num l) ≡ true → P l) (all_listings num d)
  unfolding query_rooms matches
  All-query_rooms P d q f a =
      let r = record q { limit = none; offset = 0; count = false } in
      All-matched P d r f (
        All-ranked _ d r (
          map-All P (λ x. x.listing) (ranked num d r)
            (subst (All P) (page-items (ranked num d r)) a)))
