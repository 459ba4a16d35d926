-- ===== src/Command.antt =====
-- The dispatcher of commands of crates/colyseus/src/command.rs. A command is a value that `execute` runs on
-- the room with its context and on the dispatcher.
pub mod Laws
use colyseus_rs.Base.{
  ℕ, zero, suc, Bool, true, false, not, Option, none, some, List, [], ◌∷◌, ◌++◌, length,
  if◌then◌else◌,
}

pub record Dispatcher (C : Type 0) : Type 0 where
  pub queue : List C
  pub stopped : Bool

module _ {C : Type 0} where
  abbrev pub new : Dispatcher C
  new = record { queue = []; stopped = false }

  unfoldable pub enqueue : C → Dispatcher C → Dispatcher C
  enqueue c d = if d.stopped then d else record d { queue = d.queue ++ (c ∷ []) }

  unfoldable pub stop : Dispatcher C → Dispatcher C
  stop d = record { queue = []; stopped = true }

  pub is_running : Dispatcher C → Bool
  is_running d = not d.stopped

  pub pending : Dispatcher C → ℕ
  pending d = length d.queue

module _ {C W : Type 0} (execute : C → W → Dispatcher C → W × Dispatcher C) where
  -- The test of the loop of `drain`, and what it pops.
  abbrev pub next :
      Bool
      → List C
      → (C → List C → Option (W × Dispatcher C))
      → W × Dispatcher C
      → Option (W × Dispatcher C)
  next true queue run end = some end
  next false [] run end = some end
  next false (c ∷ rest) run end = run c rest

  -- `drain` on fuel; `none` where the fuel does not suffice.
  unfoldable pub drain : ℕ → W → Dispatcher C → Option (W × Dispatcher C)
  drain zero w d = none
  drain (suc fuel) w d =
      next d.stopped d.queue
        (λ c rest.
          drain fuel (execute c w (record d { queue = rest })).0
            (execute c w (record d { queue = rest })).1)
        (w, d)

  -- The room holds its dispatcher; while a command runs, a new one stands in its place.
  abbrev pub put_back : (Dispatcher C → W → W) → Option (W × Dispatcher C) → Option W
  put_back set none = none
  put_back set (some (w, d)) = some (set d w)

  unfoldable pub dispatch : (W → Dispatcher C) → (Dispatcher C → W → W) → ℕ → C → W → Option W
  dispatch get set fuel c w = put_back set (drain fuel (set new w) (enqueue c (get w)))
