-- ===== src/Matchmaker/Caching/Keeping.antt =====
-- How long the cache of reservations keeps a value.
use colyseus_rs.Base.{
  ℕ, zero, suc, ◌+◌, ◌-◌, ◌≤◌, Bool, true, false, some, Text, text-reflexive, List, [], ◌∷◌, ◌==◌,
  text_eq, if◌then◌else◌, leb, length, All, ◌≡◌, refl, ap, ◌∙◌, arith, Bool-cases, inl, inr,
}
use colyseus_rs.Base.Maps.{lookup, lookup-put, length-put}
use colyseus_rs.Matchmaker.Idempotency.{
  idempotency_ttl, is_fresh, sweep, evict, cache_put, cache_get,
}
use colyseus_rs.Matchmaker.Caching.{History}

module _ {A : Type 0} where
  -- The cache after further calls of `cache_put`.
  unfoldable pub and_then : ℕ → History A → List (Text × (ℕ × A)) → List (Text × (ℕ × A))
  and_then cap [] m = m
  and_then cap ((key, (at, a)) ∷ earlier) m = cache_put cap at key a (and_then cap earlier m)

  length-sweep : (now : ℕ) (m : List (Text × (ℕ × A))) → length (sweep now m) ≤ length m
  unfolding sweep
  length-sweep now [] = omega arith
  length-sweep now (x ∷ m) = ground (arith, length-sweep now m)

  -- With room for one more nothing is evicted.
  evict_short :
      (fuel cap now : ℕ) (m : List (Text × (ℕ × A))) → length m + 1 ≤ cap → evict fuel cap now m ≡ m
  unfolding evict
  evict_short zero cap now m h = refl
  evict_short (suc fuel) cap now m h =
      let short : leb cap (length m) ≡ false = ground (arith, h) in rw short refl

  lookup-sweep :
      (now : ℕ) (key : Text) (e : ℕ × A) (m : List (Text × (ℕ × A)))
      → is_fresh now e ≡ true
      → lookup key m ≡ some e
      → lookup key (sweep now m) ≡ some e
  unfolding lookup sweep
  lookup-sweep now key e [] fresh known = cc
  lookup-sweep now key e ((k, x) ∷ m) fresh known = elim (Bool-cases (key == k)) [
    | inl same ↦ let is : x ≡ e = cc (same, known) in rw (is, fresh, same) refl
    | inr differ ↦
        let rest = lookup-sweep now key e m fresh (cc (differ, known)) in
        elim (Bool-cases (is_fresh now x)) [
          | inl stays ↦ rw (stays, differ) rest
          | inr goes ↦ rw goes rest
        ]
  ]

  lookup-cache_put :
      (cap now : ℕ) (j key : Text) (a : A) (m : List (Text × (ℕ × A)))
      → length m + 1 ≤ cap
      → lookup j (cache_put cap now key a m)
        ≡ (if j == key then some (now, a) else lookup j (sweep now m))
  unfolding cache_put
  lookup-cache_put cap now j key a m room =
      let swept = sweep now m in
      let all_kept =
        evict_short (length swept) cap now swept (omega (arith, room, length-sweep now m)) in
      rw all_kept (lookup-put j key (now, a) swept)

  length-cache_put :
      (cap now : ℕ) (key : Text) (a : A) (m : List (Text × (ℕ × A)))
      → length m + 1 ≤ cap
      → length (cache_put cap now key a m) ≤ length m + 1
  unfolding cache_put
  length-cache_put cap now key a m room =
      let swept = sweep now m in
      let all_kept =
        evict_short (length swept) cap now swept (omega (arith, room, length-sweep now m)) in
      rw all_kept (omega (arith, length-put key (now, a) swept, length-sweep now m))

  length-and_then :
      (cap : ℕ) (history : History A) (m : List (Text × (ℕ × A)))
      → length m + length history ≤ cap
      → length (and_then cap history m) ≤ length m + length history
  unfolding and_then
  length-and_then cap [] m room = omega arith
  length-and_then cap ((key, (at, a)) ∷ earlier) m room =
      let before = length-and_then cap earlier m (omega (arith, room)) in
      let one_more =
        length-cache_put cap at key a (and_then cap earlier m) (omega (arith, room, before)) in
      omega (arith, before, one_more)

  lookup-and_then :
      (cap now : ℕ) (key : Text) (a : A) (history : History A) (m : List (Text × (ℕ × A)))
      → length m + length history ≤ cap
      → All (λ x. ((key == x.0) ≡ false) × (x.1.0 - now ≤ idempotency_ttl)) history
      → lookup key m ≡ some (now, a)
      → lookup key (and_then cap history m) ≡ some (now, a)
  unfolding and_then
  lookup-and_then cap now key a [] m room others known = known
  lookup-and_then cap now key a ((k, (at, b)) ∷ earlier) m room others known =
      let before = and_then cap earlier m in
      let small = length-and_then cap earlier m (omega (arith, room)) in
      let found = lookup-and_then cap now key a earlier m (omega (arith, room)) others.1 known in
      let fresh : leb (at - now) idempotency_ttl ≡ true = ground (arith, others.0.1) in
      lookup-cache_put cap at key k b before (omega (arith, room, small))
      ∙ rw (others.0.0) (lookup-sweep at key (now, a) before fresh found)

  -- A value that is put into the cache is found under its key, and stays, after any further values are
  -- put under other keys, where all of this, the lookup included, is within the time to live of the value,
  -- and the cache as it is after the first call has room for the further ones within its cap.
  pub cache_get-and_then :
      (cap now later : ℕ) (key : Text) (a : A) (m : List (Text × (ℕ × A))) (history : History A)
      → length (cache_put cap now key a m) + length history ≤ cap
      → All (λ x. ((key == x.0) ≡ false) × (x.1.0 - now ≤ idempotency_ttl)) history
      → later - now ≤ idempotency_ttl
      → cache_get later key (and_then cap history (cache_put cap now key a m))
        ≡ (some a, and_then cap history (cache_put cap now key a m))
  unfolding cache_get cache_put
  cache_get-and_then cap now later key a m history room others soon =
      let swept = sweep now m in
      let kept = evict (length swept) cap now swept in
      let put_in : lookup key (cache_put cap now key a m) ≡ some (now, a) =
        lookup-put key key (now, a) kept
        ∙ ap (λ (t : Bool). if t then some (now, a) else lookup key kept) (text-reflexive key) in
      let found =
        lookup-and_then cap now key a history (cache_put cap now key a m) room others put_in in
      let fresh : leb (later - now) idempotency_ttl ≡ true = ground (arith, soon) in
      rw (found, fresh) refl
