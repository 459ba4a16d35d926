-- ===== src/Json/Map/Order.antt =====
-- The order on keys is a strict linear order.
use colyseus_rs.Base.{true, false, Text, [], ◌∷◌, ◌≡◌, refl, arith}
use colyseus_rs.Json.Map.{key_lt}

pub key_lt-irreflexive : (s : Text) → key_lt s s ≡ false
unfolding key_lt
key_lt-irreflexive [] = refl
key_lt-irreflexive (a ∷ s) = ground (arith, key_lt-irreflexive s)

pub key_lt_trans : (s t u : Text) → key_lt s t ≡ true → key_lt t u ≡ true → key_lt s u ≡ true
unfolding key_lt
key_lt_trans [] [] u h k = cc
key_lt_trans [] (b ∷ t) [] h k = cc
key_lt_trans [] (b ∷ t) (c ∷ u) h k = refl
key_lt_trans (a ∷ s) [] u h k = cc
key_lt_trans (a ∷ s) (b ∷ t) [] h k = cc
key_lt_trans (a ∷ s) (b ∷ t) (c ∷ u) h k = ground (arith, key_lt_trans s t u)

pub key_lt-total : (s t : Text) → key_lt s t ≡ false → key_lt t s ≡ false → s ≡ t
unfolding key_lt
key_lt-total [] [] h k = refl
key_lt-total [] (b ∷ t) h k = cc
key_lt-total (a ∷ s) [] h k = cc
key_lt-total (a ∷ s) (b ∷ t) h k = ground (arith, key_lt-total s t)
