-- ===== src/Command/Laws.antt =====
-- The end of `drain` of crates/colyseus/src/command.rs, for commands that wear out.
use colyseus_rs.Base.{
  ℕ, zero, suc, ◌+◌, ◌<◌, ◌||◌, Bool, true, false, Option, some, List, [], ◌∷◌, ◌≡◌, refl, ap,
  arith,
}
use colyseus_rs.Command.{Dispatcher, next, drain}

module _ {C : Type 0} (weight : C → ℕ) where
  abbrev pub total : List C → ℕ
  total [] = 0
  total (c ∷ cs) = weight c + total cs

abbrev pub is_empty : {C : Type 0} → List C → Bool
is_empty [] = true
is_empty (c ∷ cs) = false

module _ {C W : Type 0} (execute : C → W → Dispatcher C → W × Dispatcher C) (weight : C → ℕ) where
  -- A drain that ends: with a dispatcher that is stopped or has nothing left.
  abbrev pub Drained : Option (W × Dispatcher C) → Type 0
  Drained r =
      (end : W × Dispatcher C) × (r ≡ some end) × ((end.1.stopped || is_empty end.1.queue) ≡ true)

  next-Drained :
      (stopped : Bool) (queue : List C) (run : C → List C → Option (W × Dispatcher C)) (w : W)
      (d : Dispatcher C)
      → d.stopped ≡ stopped
      → d.queue ≡ queue
      → ((c : C) (rest : List C) → d.queue ≡ c ∷ rest → Drained (run c rest))
      → Drained (next execute stopped queue run (w, d))
  next-Drained true queue run w d halted is more = ((w, d), refl, rw halted refl)
  next-Drained false [] run w d going is more = ((w, d), refl, rw (going, is) refl)
  next-Drained false (c ∷ rest) run w d going is more = more c rest is

  -- If each command leaves less weight in the queue than it found with its own, a drain with more fuel than
  -- the weight of its queue ends, with a dispatcher that is stopped or has nothing left.
  pub drain-Drained :
      ((c : C) (w : W) (d : Dispatcher C)
        → total weight (execute c w d).1.queue < weight c + total weight d.queue)
      → (fuel : ℕ) (w : W) (d : Dispatcher C) → total weight d.queue < fuel
      → Drained (drain execute fuel w d)
  unfolding drain
  drain-Drained wears zero w d enough = absurd (omega (arith, enough))
  drain-Drained wears (suc fuel) w d enough =
      next-Drained d.stopped d.queue _ w d refl refl (λ c rest is.
        let e = record d { queue = rest } in
        let popped : total weight d.queue ≡ weight c + total weight rest = ap (total weight) is in
        drain-Drained wears fuel (execute c w e).0 (execute c w e).1
          (omega (arith, enough, popped, wears c w e)))
