-- ===== src/Base/Decimal.antt =====
-- `Display` and `FromStr` of `usize`: decimal digits, most significant first.
use colyseus_rs.Base.Tests.{ltb, leb, nat_eqb, if◌then◌else◌, Bool-cases}
use colyseus_rs.Base.Strings.{Text}
use colyseus_rs.Base.Monad.{◌>>=◌}
use Prim.Native.Nat.{ℕ, zero, suc, ◌+◌, ◌-◌, ◌*◌, ◌/◌, ◌%◌, ◌^◌, ◌≤◌, ◌<◌}
use mathlib.Core.Path.{◌≡◌, refl, subst}
use mathlib.Core.Logic.{◌≢◌, inl, inr}
use mathlib.Core.Bool.{Bool, false, ◌&&◌}
use mathlib.Core.List.{[], ◌∷◌, ◌++◌}
use mathlib.Core.Option.{Option, none, some}
use native.Mathlib.Omega.{arith}

-- The fuel is one more than the number, and each round divides the number by ten.
digits : ℕ → ℕ → Text
digits zero n = []
digits (suc f) n =
    let rest = digits f (n / 10) ++ (b'0' + n % 10) ∷ [] in
    if ltb n 10 then (b'0' + n) ∷ [] else rest

unfoldable pub to_string : ℕ → Text
unfolding digits
to_string n = digits (suc n) n

is_digit : ℕ → Bool
is_digit c = leb b'0' c && leb c b'9'

scan : Text → ℕ → Option ℕ
unfolding is_digit
scan [] n = some n
scan (c ∷ s) n = let rest = scan s (n * 10 + (c - b'0')) in if is_digit c then rest else none

leading_zero : Text → Bool
leading_zero (c ∷ d ∷ s) = nat_eqb c b'0'
leading_zero _ = false

-- An array index of RFC 6901: digits without a leading zero.
unfoldable pub parse_index : Text → Option ℕ
unfolding scan leading_zero
parse_index [] = none
parse_index (c ∷ s) = if leading_zero (c ∷ s) then none else scan (c ∷ s) 0

-- `str::parse::<usize>`: an optional `+`, then at least one digit, and no overflow of 64 bits.
below_2_64 : ℕ → Option ℕ
below_2_64 n = if ltb n (2 ^ 64) then some n else none

unsigned : Text → Option ℕ
unfolding scan below_2_64
unsigned [] = none
unsigned (c ∷ s) = do n ← scan (c ∷ s) 0; below_2_64 n

unfoldable pub parse_usize : Text → Option ℕ
unfolding unsigned
parse_usize [] = none
parse_usize (c ∷ s) = if nat_eqb c b'+' then unsigned s else unsigned (c ∷ s)

scan-append : (s t : Text) (n : ℕ) → scan (s ++ t) n ≡ (scan s n >>= scan t)
unfolding scan
scan-append [] t n = refl
scan-append (c ∷ s) t n = ground (arith, scan-append s t (n * 10 + (c - b'0')))

scan_digit : (d : ℕ) (n : ℕ) → d < 10 → scan ((b'0' + d) ∷ []) n ≡ some (n * 10 + d)
unfolding scan
scan_digit d n h = ground arith

scan-digits : (f n : ℕ) → n < f → scan (digits f n) 0 ≡ some n
unfolding digits
scan-digits zero n h = elim h [ ]
scan-digits (suc f) n h = elim (Bool-cases (ltb n 10)) [
  | inl small ↦ rw small (ground (arith, scan_digit n 0))
  | inr big ↦
      rw (big, scan-append (digits f (n / 10)) _ 0, scan-digits f (n / 10) (ground arith))
        (ground (arith, scan_digit (n % 10) (n / 10)))
]

-- A text whose first character is a digit other than zero.
abbrev Leads : Text → Type 0
Leads [] = ⊥
Leads (c ∷ s) = b'0' < c

Leads-append : (s t : Text) → Leads s → Leads (s ++ t)
Leads-append [] t h = elim h [ ]
Leads-append (c ∷ s) t h = h

digits-Leads : (f n : ℕ) → 0 < n → n < f → Leads (digits f n)
unfolding digits
digits-Leads zero n p h = elim h [ ]
digits-Leads (suc f) n p h = elim (Bool-cases (ltb n 10)) [
  | inl small ↦ rw small (omega arith)
  | inr big ↦ rw big (Leads-append _ _ (digits-Leads f (n / 10) (ground arith) (ground arith)))
]

leading_zero-Leads : (s : Text) → Leads s → leading_zero s ≡ false
unfolding leading_zero
leading_zero-Leads [] h = elim h [ ]
leading_zero-Leads (c ∷ []) h = refl
leading_zero-Leads (c ∷ d ∷ s) h = ground arith

leading_zero-to_string : (n : ℕ) → leading_zero (to_string n) ≡ false
unfolding to_string leading_zero
leading_zero-to_string zero = refl
leading_zero-to_string (suc n) =
    leading_zero-Leads _ (digits-Leads (suc (suc n)) (suc n) (omega arith) (omega arith))

parse_scan :
    (s : Text) {n : ℕ}
    → leading_zero s ≡ false
    → scan s 0 ≡ some n
    → s ≢ []
    → parse_index s ≡ some n
unfolding parse_index
parse_scan [] z e ne = absurd (ne refl)
parse_scan (c ∷ s) z e ne = rw z e

to_string-ne-nil : (n : ℕ) → to_string n ≢ []
unfolding to_string leading_zero
to_string-ne-nil zero h = cc
to_string-ne-nil (suc n) h =
    elim (subst Leads h (digits-Leads (suc (suc n)) (suc n) (omega arith) (omega arith))) [ ]

-- What `Display` prints is read back.
pub parse_index-to_string : (n : ℕ) → parse_index (to_string n) ≡ some n
parse_index-to_string n =
    parse_scan (to_string n) (leading_zero-to_string n)
      (unfold to_string in scan-digits (suc n) n (omega arith)) (to_string-ne-nil n)

-- No digit is a slash or a tilde.
abbrev pub AllDigits : Text → Type 0
AllDigits [] = Unit {0}
AllDigits (c ∷ s) = (b'0' ≤ c) × (c ≤ b'9') × AllDigits s

AllDigits-append : (s t : Text) → AllDigits s → AllDigits t → AllDigits (s ++ t)
AllDigits-append [] t a b = b
AllDigits-append (c ∷ s) t a b = (a.0, a.1, AllDigits-append s t a.2 b)

digits-AllDigits : (f n : ℕ) → AllDigits (digits f n)
unfolding digits
digits-AllDigits zero n = tt
digits-AllDigits (suc f) n = elim (Bool-cases (ltb n 10)) [
  | inl small ↦ rw small (omega arith, ground arith, tt)
  | inr big ↦
      rw big (AllDigits-append _ _ (digits-AllDigits f (n / 10)) (omega arith, omega arith, tt))
]

pub to_string-AllDigits : (n : ℕ) → AllDigits (to_string n)
unfolding to_string leading_zero
to_string-AllDigits n = digits-AllDigits (suc n) n
