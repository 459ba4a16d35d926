-- ===== src/Json/Pointer/RoundTrip.antt =====
-- A rendered pointer is read back, whatever its keys hold.
use colyseus_rs.Base.{
  ℕ, Text, List, [], ◌∷◌, ◌++◌, map, some, nat_eqb, if◌then◌else◌, ◌≡◌, refl, arith, ap, ◌∙◌, ◌≢◌,
  append-nil,
}
use colyseus_rs.Base.Decimal.{AllDigits}
use colyseus_rs.Json.Pointer.{escape, render, unescape, split, parse_pointer}

escape_char : ℕ → Text
escape_char c =
    if nat_eqb c b'~' then b'~' ∷ b'0' ∷ [] else if nat_eqb c b'/' then b'~' ∷ b'1' ∷ [] else c ∷ []

-- The two passes of `escape` act on each character by itself.
escape-cons : (c : ℕ) (s : Text) → escape (c ∷ s) ≡ escape_char c ++ escape s
unfolding escape escape_char
escape-cons c s = ground arith

abbrev NoSlash : Text → Type 0
NoSlash [] = Unit {0}
NoSlash (c ∷ s) = (c ≢ b'/') × NoSlash s

NoSlash-escape_char : (c : ℕ) (t : Text) → NoSlash t → NoSlash (escape_char c ++ t)
unfolding escape_char
NoSlash-escape_char c t h = ground arith

escape-NoSlash : (s : Text) → NoSlash (escape s)
escape-NoSlash [] = unfold escape in tt
escape-NoSlash (c ∷ s) = rw (escape-cons c s) (NoSlash-escape_char c (escape s) (escape-NoSlash s))

unescape-escape_char : (c : ℕ) (t : Text) → unescape (escape_char c ++ t) ≡ c ∷ unescape t
unfolding escape_char unescape
unescape-escape_char c [] = ground arith
unescape-escape_char c (d ∷ t) = ground arith

pub unescape-escape : (s : Text) → unescape (escape s) ≡ s
unescape-escape [] = unfold escape unescape in refl
unescape-escape (c ∷ s) = rw (escape-cons c s, unescape-escape_char c (escape s), unescape-escape s)

split-NoSlash : (s : Text) → NoSlash s → split s ≡ s ∷ []
unfolding split
split-NoSlash [] h = refl
split-NoSlash (c ∷ s) h = ground (arith, split-NoSlash s h.1)

split-slash : (s t : Text) → NoSlash s → split (s ++ b'/' ∷ t) ≡ s ∷ split t
unfolding split
split-slash [] t h = refl
split-slash (c ∷ s) t h = ground (arith, split-slash s t h.1)

split-render : (k : Text) (ks : List Text) → split (escape k ++ render ks) ≡ map escape (k ∷ ks)
unfolding render
split-render k [] = rw append-nil (split-NoSlash (escape k) (escape-NoSlash k))
split-render k (j ∷ ks) =
    split-slash (escape k) (escape j ++ render ks) (escape-NoSlash k)
    ∙ ap (◌∷◌ (escape k)) (split-render j ks)

map-unescape : (ks : List Text) → map unescape (map escape ks) ≡ ks
map-unescape [] = refl
map-unescape (k ∷ ks) = rw (unescape-escape k, map-unescape ks)

pub parse_pointer-render : (ks : List Text) → parse_pointer (render ks) ≡ some ks
unfolding parse_pointer render
parse_pointer-render [] = refl
parse_pointer-render (k ∷ ks) = rw (split-render k ks) (ap some (map-unescape (k ∷ ks)))

-- Digits are written as they are.
pub escape-AllDigits : (s : Text) → AllDigits s → escape s ≡ s
escape-AllDigits [] h = unfold escape in refl
escape-AllDigits (c ∷ s) h =
    rw (escape-cons c s, escape-AllDigits s h.2) (unfold escape_char in ground arith)
