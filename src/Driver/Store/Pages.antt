-- ===== src/Driver/Store/Pages.antt =====
-- Paging through the results of `query_rooms` of crates/colyseus/src/driver.rs.
use colyseus_rs.Base.{
  ℕ, zero, suc, ◌+◌, ◌≤◌, ◌<◌, min, false, none, some, List, [], ◌∷◌, ◌++◌, append-nil,
  drop-min-length, length, take, drop, map, length-take, length-drop, take-append-drop, ltb,
  if◌then◌else◌, ◌≡◌, refl, ap, sym, ◌∙◌, arith, Bool-cases, inl, inr, Eq,
}
use colyseus_rs.Driver.{Numbers, RoomListing, RoomQuery}
use colyseus_rs.Driver.Store.{
  LocalDriver, ListingEntry, query_rooms, page, ranked, matched, matches,
}

module _ {A B : Type 0} where
  length-map : (f : A → B) (xs : List A) → length (map f xs) ≡ length xs
  length-map f [] = refl
  length-map f (x ∷ xs) = omega (arith, length-map f xs)

  map-append : (f : A → B) (xs ys : List A) → map f (xs ++ ys) ≡ map f xs ++ map f ys
  map-append f [] ys = refl
  map-append f (x ∷ xs) ys = ap (◌∷◌ (f x)) (map-append f xs ys)

module _ {A : Type 0} where
  drop-nil : (n : ℕ) → drop {A = A} n [] ≡ []
  drop-nil zero = refl
  drop-nil (suc n) = refl

  drop-drop : (a b : ℕ) (xs : List A) → drop b (drop a xs) ≡ drop (a + b) xs
  drop-drop zero b xs = let e : 0 + b ≡ b = omega arith in rw e refl
  drop-drop (suc a) b [] = let e : suc a + b ≡ suc (a + b) = omega arith in rw e (drop-nil b)
  drop-drop (suc a) b (x ∷ xs) =
      let e : suc a + b ≡ suc (a + b) = omega arith in rw e (drop-drop a b xs)

  take_all : (n : ℕ) (xs : List A) → length xs ≤ n → take n xs ≡ xs
  take_all zero [] h = refl
  take_all zero (x ∷ xs) h = absurd (omega (arith, h))
  take_all (suc n) [] h = refl
  take_all (suc n) (x ∷ xs) h = ap (◌∷◌ x) (take_all n xs (omega (arith, h)))

module _ {N : Type 0} ⦃e : Eq N⦄ (num : Numbers N) (d : LocalDriver N) where
  -- The pages that a caller gets who follows each `next_offset`, at most `n` of them.
  abbrev pub pages : ℕ → RoomQuery N → List (RoomListing N)
  pages zero q = []
  pages (suc n) q =
      let r = query_rooms num d q in
      r.items ++ (elim r.next_offset [ none ↦ [] | some o ↦ pages n (record q { offset = o }) ])

  abbrev pub listings : List (ListingEntry N) → List (RoomListing N)
  listings = map (λ (a : ListingEntry N). a.listing)

  matched_offset :
      (c : LocalDriver N) (q : RoomQuery N) (o : ℕ)
      → matched num c (record q { offset = o }) ≡ matched num c q
  unfolding matched matches
  matched_offset [] q o = refl
  matched_offset ((k, l) ∷ c) q o = rw (matched_offset c q o) refl

  ranked_offset :
      (q : RoomQuery N) (o : ℕ) → ranked num d (record q { offset = o }) ≡ ranked num d q
  unfolding ranked
  ranked_offset q o = rw (matched_offset d q o) refl

  paged :
      (k : ℕ) (q : RoomQuery N)
      → q.limit ≡ some (suc k)
      → q.count ≡ false
      → query_rooms num d q ≡ page num (ranked num d q) (some (suc k)) q.offset false
  unfolding query_rooms
  paged k q lim all =
      ap (λ l. page num (ranked num d q) l q.offset q.count) lim
      ∙ ap (λ c. page num (ranked num d q) (some (suc k)) q.offset c) all

  page_items :
      (k o : ℕ) (found : List (ListingEntry N))
      → (page num found (some (suc k)) o false).items ≡ listings (take (suc k) (drop o found))
  unfolding page
  page_items k o found = ap (λ xs. listings (take (suc k) xs)) (drop-min-length o found)

  page-next :
      (k o : ℕ) (found : List (ListingEntry N))
      → o ≤ length found
      → (page num found (some (suc k)) o false).next_offset ≡ (
          let next = o + length (take (suc k) (drop o found)) in
          if ltb next (length found) then some next else none)
  unfolding page
  page-next k o found within =
      let m : min o (length found) ≡ o = omega (arith, within) in
      let l = length-map (λ (a : ListingEntry N). a.listing) (take (suc k) (drop o found)) in
      rw (m, l) refl

  -- With a limit that is not zero, and more pages than results, the pages are together the results from
  -- the offset on, each once and in order.
  pub pages-ranked :
      (n k : ℕ) (q : RoomQuery N)
      → q.limit ≡ some (suc k)
      → q.count ≡ false
      → q.offset ≤ length (ranked num d q)
      → length (ranked num d q) < q.offset + n
      → pages n q ≡ listings (drop q.offset (ranked num d q))
  pages-ranked zero k q lim all within fuel = absurd (omega (arith, within, fuel))
  pages-ranked (suc n) k q lim all within fuel =
      let found = ranked num d q in
      let rest = drop q.offset found in
      let next = q.offset + length (take (suc k) rest) in
      let size = length-take (suc k) rest in
      let left = length-drop q.offset found in
      rw (paged k q lim all) (
        rw (page_items k q.offset found, page-next k q.offset found within)
          (elim (Bool-cases (ltb next (length found))) [
            | inl more ↦
                let less : next < length found = ground (arith, more) in
                let full : length (take (suc k) rest) ≡ suc k = omega (arith, size, left, less) in
                let same = ranked_offset q next in
                let bound : next ≤ length (ranked num d (record q { offset = next })) =
                  rw same (omega (arith, less)) in
                let enough : length (ranked num d (record q { offset = next })) < next + n =
                  rw same (omega (arith, full, fuel)) in
                let later = pages-ranked n k (record q { offset = next }) lim all bound enough in
                let tail : drop next (ranked num d (record q { offset = next }))
                    ≡ drop (suc k) rest =
                  ap (drop next) same
                  ∙ sym (drop-drop q.offset (length (take (suc k) rest)) found)
                  ∙ ap (λ (j : ℕ). drop j rest) full in
                rw more (
                  rw later (
                    ap (λ ys. listings (take (suc k) rest) ++ listings ys) tail
                    ∙ sym (
                        map-append (λ (a : ListingEntry N). a.listing) (take (suc k) rest)
                          (drop (suc k) rest))
                    ∙ ap listings (take-append-drop (suc k) rest)))
            | inr last ↦
                let done : length found ≤ next = ground (arith, last) in
                rw last (
                  append-nil _
                  ∙ ap listings (take_all (suc k) rest (omega (arith, size, left, done))))
          ]))
