-- ===== src/Matchmaker/Idempotency.antt =====
-- The cache of reservations by `Idempotency-Key`: `idempotency_get` and `idempotency_put` of
-- crates/colyseus/src/matchmaker.rs. Ages are in milliseconds.
use colyseus_rs.Base.{
  ℕ, zero, suc, ◌-◌, Bool, Option, none, some, Text, List, [], ◌∷◌, text_eq, if◌then◌else◌, leb,
  ltb, length, retain,
}
use colyseus_rs.Base.Maps.{lookup, put, erase}
use colyseus_rs.Matchmaker.{MatchMaker, SeatReservation}

abbrev pub idempotency_ttl : ℕ
idempotency_ttl = 30000

abbrev pub idempotency_cap : ℕ
idempotency_cap = 1024

-- The older of two entries; of the same age the second.
abbrev pub older : Text × ℕ → Option (Text × ℕ) → Text × ℕ
older x none = x
older x (some y) = if ltb y.1 x.1 then x else y

module _ {A : Type 0} where
  abbrev pub is_fresh : ℕ → ℕ × A → Bool
  is_fresh now e = leb (now - e.0) idempotency_ttl

  unfoldable pub sweep : ℕ → List (Text × (ℕ × A)) → List (Text × (ℕ × A))
  sweep now = retain (λ (e : Text × (ℕ × A)). is_fresh now e.1)

  -- The entry of the greatest age; of several the last, as `max_by_key` has it.
  unfoldable pub oldest : ℕ → List (Text × (ℕ × A)) → Option (Text × ℕ)
  oldest now [] = none
  oldest now ((k, e) ∷ m) = some (older (k, now - e.0) (oldest now m))

  abbrev pub evict_oldest : ℕ → List (Text × (ℕ × A)) → List (Text × (ℕ × A))
  evict_oldest now m = elim (oldest now m) [ none ↦ m | some best ↦ erase best.0 m ]

  -- The `while` of `idempotency_put`, on fuel.
  unfoldable pub evict : ℕ → ℕ → ℕ → List (Text × (ℕ × A)) → List (Text × (ℕ × A))
  evict zero cap now m = m
  evict (suc fuel) cap now m =
      let rest = evict fuel cap now (evict_oldest now m) in if leb cap (length m) then rest else m

  unfoldable pub cache_put : ℕ → ℕ → Text → A → List (Text × (ℕ × A)) → List (Text × (ℕ × A))
  cache_put cap now key a m =
      let swept = sweep now m in put key (now, a) (evict (length swept) cap now swept)

  abbrev pub fresh_or_erased :
      ℕ → Text → Option (ℕ × A) → List (Text × (ℕ × A)) → Option A × List (Text × (ℕ × A))
  fresh_or_erased now key none m = (none, m)
  fresh_or_erased now key (some e) m = if is_fresh now e then (some e.1, m) else (none, erase key m)

  -- The value, and the cache without the entry where it has expired.
  unfoldable pub cache_get : ℕ → Text → List (Text × (ℕ × A)) → Option A × List (Text × (ℕ × A))
  cache_get now key m = fresh_or_erased now key (lookup key m) m

module _ {N : Type 0} where
  unfoldable pub idempotency_get :
      ℕ → Text → MatchMaker N → Option (SeatReservation N) × MatchMaker N
  idempotency_get now key mm =
      let r = cache_get now key mm.idempotency in (r.0, record mm { idempotency = r.1 })

  unfoldable pub idempotency_put : ℕ → Text → SeatReservation N → MatchMaker N → MatchMaker N
  idempotency_put now key r mm = record mm {
    idempotency = cache_put idempotency_cap now key r mm.idempotency;
  }
