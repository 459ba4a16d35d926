-- ===== src/Base/Strings.antt =====
-- Rust's `String` as the list of its code points: equality, the order of `Ord`, decimal numbers.
use Prim.Native.Nat.{ℕ}
use Prim.Native.Char.{code}
use Prim.Native.String.{String}
use mathlib.Core.Path.{◌≡◌, refl}
use mathlib.Core.Bool.{Bool, true, false, ◌&&◌}
use mathlib.Core.List.{List, [], ◌∷◌}
use native.Mathlib.Omega.{arith}
use colyseus_rs.Base.Tests.{Eq, nat_eqb}

abbrev pub Text : Type 0
Text = List ℕ

-- The code points of a literal of the source.
abbrev pub text : String → Text
text String.[] = []
text (String.◌∷◌ c s) = code c ∷ text s

unfoldable pub text_eqb : Text → Text → Bool
text_eqb [] [] = true
text_eqb (a ∷ s) (b ∷ t) = nat_eqb a b && text_eqb s t
text_eqb _ _ = false

pub text_sound : (s t : Text) → text_eqb s t ≡ true → s ≡ t
unfolding text_eqb
text_sound [] [] h = refl
text_sound (a ∷ s) (b ∷ t) h = ground (arith, text_sound s t)
text_sound [] (b ∷ t) h = cc
text_sound (a ∷ s) [] h = cc

pub text-reflexive : (s : Text) → text_eqb s s ≡ true
unfolding text_eqb
text-reflexive [] = refl
text-reflexive (a ∷ s) = ground (arith, text-reflexive s)

instance abbrev pub text_eq : Eq Text
text_eq = record { eqb = text_eqb; sound = text_sound; reflexive = text-reflexive }

-- `str::starts_with`, with the prefix first.
unfoldable pub is_prefix : Text → Text → Bool
is_prefix [] t = true
is_prefix (a ∷ s) [] = false
is_prefix (a ∷ s) (b ∷ t) = nat_eqb a b && is_prefix s t
