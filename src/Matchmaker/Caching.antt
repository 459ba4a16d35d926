-- ===== src/Matchmaker/Caching.antt =====
-- The cache of reservations by `Idempotency-Key` of crates/colyseus/src/matchmaker.rs, against the history
-- of what was put into it.
pub mod Keeping
use mathlib.Core.List.{Memᴰ}
use mathlib.Core.List.Memᴰ.{head, tail}
use colyseus_rs.Base.{
  All-weaken, ℕ, zero, suc, ◌-◌, ◌≤◌, ◌<◌, Bool, true, Option, none, some, Text, text-reflexive,
  List, [], ◌∷◌, text_eq, if◌then◌else◌, ltb, leb, length, retain, All, ◌≡◌, refl, subst, ap, ◌∙◌,
  arith, Bool-cases, inl, inr, leb→le, leb→gt,
}
use colyseus_rs.Base.Maps.{
  lookup, put, is_some, lookup-put, length-put, length-erase, lookup-All, All-put, All-erase,
}
use colyseus_rs.Matchmaker.Idempotency.{
  idempotency_ttl, older, fresh_or_erased, is_fresh, sweep, oldest, evict_oldest, evict, cache_put,
  cache_get,
}

-- What was put in, the latest first: key, time and value.
abbrev pub History : Type 0 → Type 0
History A = List (Text × (ℕ × A))

module _ {A : Type 0} where
  All-kept :
      (P : Text × A → Type 0) (p : Text × A → Bool) (m : List (Text × A))
      → All P m
      → All P (retain p m)
  All-kept P p [] h = tt
  All-kept P p (x ∷ m) h = elim (Bool-cases (p x)) [
    | inl holds ↦ rw holds (h.0, All-kept P p m h.1)
    | inr fails ↦ rw fails (All-kept P p m h.1)
  ]

module _ {A : Type 0} where
  lookup_later :
      (j k : Text) (a : A) (m : List (Text × A))
      → is_some (lookup j m) ≡ true
      → is_some (lookup j ((k, a) ∷ m)) ≡ true
  unfolding lookup
  lookup_later j k a m h = ground (arith, h)

  lookup_first : (k : Text) (a : A) (m : List (Text × A)) → is_some (lookup k ((k, a) ∷ m)) ≡ true
  unfolding lookup
  lookup_first k a m = ground (arith, text-reflexive k)

  older-known :
      (k : Text) (age : ℕ) (a : A) (m : List (Text × A)) (o : Option (Text × ℕ))
      → ((y : Text × ℕ) → o ≡ some y → is_some (lookup y.0 m) ≡ true)
      → is_some (lookup (older (k, age) o).0 ((k, a) ∷ m)) ≡ true
  older-known k age a m none h = lookup_first k a m
  older-known k age a m (some y) h = elim (Bool-cases (ltb y.1 age)) [
    | inl later ↦ rw later (lookup_first k a m)
    | inr earlier ↦ rw earlier (lookup_later y.0 k a m (h y refl))
  ]

module _ {A : Type 0} where
  oldest-known :
      (now : ℕ) (m : List (Text × (ℕ × A))) (best : Text × ℕ)
      → oldest now m ≡ some best
      → is_some (lookup best.0 m) ≡ true
  unfolding oldest
  oldest-known now [] best h = cc
  oldest-known now ((k, e) ∷ m) best h =
      let is : older (k, now - e.0) (oldest now m) ≡ best = cc h in
      subst (λ (b : Text × ℕ). is_some (lookup b.0 ((k, e) ∷ m)) ≡ true) is
        (older-known k (now - e.0) e m (oldest now m) (oldest-known now m))

  evict_oldest-shorter :
      (now : ℕ) (m : List (Text × (ℕ × A)))
      → ltb 0 (length m) ≡ true
      → length m ≡ suc (length (evict_oldest now m))
  unfolding oldest
  evict_oldest-shorter now [] h = cc
  evict_oldest-shorter now ((k, e) ∷ m) h =
      let best = older (k, now - e.0) (oldest now m) in
      length-erase best.0 ((k, e) ∷ m) (oldest-known now ((k, e) ∷ m) best refl)

  -- With fuel for every entry, the eviction leaves less than the cap.
  length-evict :
      (fuel cap now : ℕ) (m : List (Text × (ℕ × A)))
      → length m ≤ fuel
      → 0 < cap
      → length (evict fuel cap now m) < cap
  unfolding evict
  length-evict zero cap now m enough some_cap = omega (arith, enough, some_cap)
  length-evict (suc fuel) cap now m enough some_cap = elim (Bool-cases (leb cap (length m))) [
    | inl long ↦
        let at_least = leb→le cap (length m) long in
        let shorter = evict_oldest-shorter now m (ground (arith, at_least, some_cap)) in
        rw long
          (length-evict fuel cap now (evict_oldest now m) (omega (arith, enough, shorter)) some_cap)
    | inr short ↦ rw short (leb→gt cap (length m) short)
  ]

  -- The cache keeps within its cap, if the cap is not zero: a new entry is put in where there is room for it.
  pub cache_put-bounded :
      (cap now : ℕ) (key : Text) (a : A) (m : List (Text × (ℕ × A)))
      → 0 < cap
      → length (cache_put cap now key a m) ≤ cap
  unfolding cache_put
  cache_put-bounded cap now key a m some_cap =
      let swept = sweep now m in
      omega (
        arith,
        length-put key (now, a) (evict (length swept) cap now swept),
        length-evict (length swept) cap now swept (omega arith) some_cap,
      )

  All-evict_oldest :
      (P : Text × (ℕ × A) → Type 0) (now : ℕ) (m : List (Text × (ℕ × A)))
      → All P m
      → All P (evict_oldest now m)
  unfolding oldest
  All-evict_oldest P now [] h = h
  All-evict_oldest P now ((k, e) ∷ m) h =
      All-erase P (older (k, now - e.0) (oldest now m)).0 ((k, e) ∷ m) h

  All-evict :
      (P : Text × (ℕ × A) → Type 0) (fuel cap now : ℕ) (m : List (Text × (ℕ × A)))
      → All P m
      → All P (evict fuel cap now m)
  unfolding evict oldest
  All-evict P zero cap now m h = h
  All-evict P (suc fuel) cap now m h = elim (Bool-cases (leb cap (length m))) [
    | inl long ↦
        rw long (All-evict P fuel cap now (evict_oldest now m) (All-evict_oldest P now m h))
    | inr short ↦ rw short h
  ]

  -- The cache after these calls of `cache_put`.
  unfoldable pub after : ℕ → History A → List (Text × (ℕ × A))
  after cap [] = []
  after cap ((key, (at, a)) ∷ earlier) = cache_put cap at key a (after cap earlier)

  after-All : (cap : ℕ) (history : History A) → All (λ x. Memᴰ x history) (after cap history)
  unfolding after cache_put sweep
  after-All cap [] = tt
  after-All cap ((key, (at, a)) ∷ earlier) =
      let m = after cap earlier in
      let P : Text × (ℕ × A) → Type 0 = λ x. Memᴰ x ((key, (at, a)) ∷ earlier) in
      All-put P key (at, a) (evict (length (sweep at m)) cap at (sweep at m)) (head refl)
        (All-evict P (length (sweep at m)) cap at (sweep at m) (
          All-kept P (λ x. is_fresh at x.1) m
            (All-weaken (λ x there. tail there) m (after-All cap earlier))))

  fresh_or_erased-some :
      (P : Text × (ℕ × A) → Type 0) (now : ℕ) (key : Text) (o : Option (ℕ × A))
      (m : List (Text × (ℕ × A))) (a : A)
      → ((e : ℕ × A) → o ≡ some e → P (key, e))
      → (fresh_or_erased now key o m).0 ≡ some a
      → (at : ℕ) × P (key, (at, a)) × (now - at ≤ idempotency_ttl)
  fresh_or_erased-some P now key none m a p h = cc
  fresh_or_erased-some P now key (some (at, b)) m a p h =
      elim (Bool-cases (leb (now - at) idempotency_ttl)) [
        | inl fresh ↦ (
          at,
          subst (λ (c : A). P (key, (at, c))) (cc (h, fresh)) (p (at, b) refl),
          leb→le (now - at) idempotency_ttl fresh,
        )
        | inr old ↦ absurd (cc (h, old))
      ]

  -- Whatever is found in the cache was put in under that key, and no longer ago than the time to live.
  pub cache_get-after :
      (cap now : ℕ) (key : Text) (history : History A) (a : A)
      → (cache_get now key (after cap history)).0 ≡ some a
      → (at : ℕ) × Memᴰ (key, (at, a)) history × (now - at ≤ idempotency_ttl)
  unfolding cache_get
  cache_get-after cap now key history a h =
      let m = after cap history in
      fresh_or_erased-some (λ x. Memᴰ x history) now key (lookup key m) m a
        (λ e found. lookup-All (λ x. Memᴰ x history) key m (after-All cap history) found) h
