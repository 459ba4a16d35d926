-- ===== src/Json/Pointer.antt =====
-- JSON pointers (RFC 6901) as `format!("{path}/{}", escape(key))` of
-- crates/colyseus/src/diff.rs writes them, and how a reader takes them apart.
pub mod RoundTrip
use colyseus_rs.Base.{
  Text, List, [], ◌∷◌, ◌++◌, map, Option, none, some, nat_eqb, if◌then◌else◌, ◌&&◌, ℕ,
}

-- `str::replace` of a character by a text.
unfoldable pub replace : ℕ → Text → Text → Text
replace c r [] = []
replace c r (d ∷ s) = let rest = replace c r s in if nat_eqb d c then r ++ rest else d ∷ rest

unfoldable pub escape : Text → Text
unfolding replace
escape seg = replace b'/' (b'~' ∷ b'1' ∷ []) (replace b'~' (b'~' ∷ b'0' ∷ []) seg)

-- The pointer to the place that is reached through these keys and indices.
unfoldable pub render : List Text → Text
render [] = []
render (k ∷ ks) = b'/' ∷ (escape k ++ render ks)

-- The reader of RFC 6901: segments between slashes, with `~1` and `~0` taken back.
unfoldable pub unescape : Text → Text
unescape [] = []
unescape (c ∷ []) = c ∷ []
unescape (c ∷ d ∷ s) =
    let rest = unescape s in
    let skip = unescape (d ∷ s) in
    if nat_eqb c b'~' && nat_eqb d b'1'
    then b'/' ∷ rest
    else if nat_eqb c b'~' && nat_eqb d b'0'
    then b'~' ∷ rest
    else c ∷ skip

unfoldable pub push_char : ℕ → List Text → List Text
push_char c [] = (c ∷ []) ∷ []
push_char c (s ∷ ss) = (c ∷ s) ∷ ss

unfoldable pub split : Text → List Text
unfolding push_char
split [] = [] ∷ []
split (c ∷ s) = let rest = split s in if nat_eqb c b'/' then [] ∷ rest else push_char c rest

unfoldable pub parse_pointer : Text → Option (List Text)
parse_pointer [] = some []
parse_pointer (c ∷ s) = if nat_eqb c b'/' then some (map unescape (split s)) else none
