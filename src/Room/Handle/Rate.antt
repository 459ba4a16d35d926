-- ===== src/Room/Handle/Rate.antt =====
-- The message rate limit of `Client::check_rate`, over a run of messages.
use colyseus_rs.Base.{
  ℕ, ◌+◌, ◌-◌, ◌/◌, ◌^◌, ◌%◌, ◌≤◌, ◌<◌, false, List, [], ◌∷◌, length, if◌then◌else◌, leb, ◌≡◌,
  arith, All, Bool-cases, inl, inr, min, refl, leb→le, leb→gt,
}
use colyseus_rs.Room.Handle.{rate_step}

-- How many of the messages at these instants are allowed.
abbrev pub allowed : ℕ → ℕ × ℕ → List ℕ → ℕ
allowed max w [] = 0
allowed max w (now ∷ nows) =
    let r = rate_step max now w in (if r.1 then 1 else 0) + allowed max r.0 nows

rate_step-within :
    (max start count now : ℕ)
    → now < start + 1000
    → count + 1 < 2 ^ 32
    → rate_step max now (start, count) ≡ ((start, count + 1), leb (count + 1) max)
unfolding rate_step
rate_step-within max start count now w small =
    let early : (now - start) / 1000 < 1 = omega (arith, w) in
    let same : leb 1 ((now - start) / 1000) ≡ false = ground (arith, early) in
    let next : (count + 1) % 2 ^ 32 ≡ count + 1 = omega (arith, small) in rw (same, next) refl

-- Of the messages that arrive within a second of the start of a window, at most `max` less those that
-- the window has counted are allowed, while the count does not wrap.
pub allowed_in_window :
    (max start count : ℕ) (nows : List ℕ)
    → All (λ now. now < start + 1000) nows
    → count + length nows < 2 ^ 32
    → allowed max (start, count) nows + min count max ≤ max
allowed_in_window max start count [] within small = omega arith
allowed_in_window max start count (now ∷ nows) within small =
    let rest = allowed_in_window max start (count + 1) nows within.1 (omega (arith, small)) in
    let step = rate_step-within max start count now within.0 (omega (arith, small)) in
    rw step (elim (Bool-cases (leb (count + 1) max)) [
      | inl fits ↦ let le = leb→le (count + 1) max fits in rw fits (omega (arith, rest, le))
      | inr over ↦ let gt = leb→gt (count + 1) max over in rw over (omega (arith, rest, gt))
    ])
