-- ===== src/Matchmaker/Options.antt =====
-- How given options and the defaults of a room type go together: `merged_options` of
-- crates/colyseus/src/matchmaker.rs.
use colyseus_rs.Base.{
  true, false, Option, none, some, Text, text_sound, ◌==◌, text_eq, if◌then◌else◌, ◌≡◌, refl, sym,
  ap, ◌∙◌, Bool-cases, inl, inr,
}
use colyseus_rs.Json.{Value, null, object, Fields, done, field}
use colyseus_rs.Json.Map.{get, insert, contains_key}
use colyseus_rs.Json.Map.Laws.{get-insert, not_contains_key}
use colyseus_rs.Matchmaker.{RegisteredHandler}
use colyseus_rs.Matchmaker.Handler.{add_defaults, as_object, merged_options}

module _ {N : Type 0} where
  -- A given value, else the default.
  abbrev pub given_or : Option (Value N) → Option (Value N) → Option (Value N)
  given_or none d = d
  given_or (some v) d = some v

  contains_key-some :
      (k : Text) (fs : Fields N) → contains_key k fs ≡ true → (v : Value N) × (get k fs ≡ some v)
  unfolding get contains_key
  contains_key-some k done h = cc
  contains_key-some k (field i u fs) h = elim (Bool-cases (k == i)) [
    | inl same ↦ rw same (u, refl)
    | inr differ ↦ rw differ (contains_key-some k fs (cc (h, differ)))
  ]

  kept_given :
      (j k : Text) (v : Value N) (fs : Fields N) (d : Option (Value N))
      → contains_key k fs ≡ true
      → given_or (get j fs) d ≡ given_or (get j fs) (if j == k then some v else d)
  kept_given j k v fs d known = elim (Bool-cases (j == k)) [
    | inl same ↦
        let (u, there) = contains_key-some k fs known in
        let found : get j fs ≡ some u = ap (λ (i : Text). get i fs) (text_sound j k same) ∙ there in
        rw found refl
    | inr differ ↦ rw differ refl
  ]

  supplied :
      (j k : Text) (v : Value N) (fs : Fields N) (d : Option (Value N))
      → contains_key k fs ≡ false
      → given_or (if j == k then some v else get j fs) d
        ≡ given_or (get j fs) (if j == k then some v else d)
  supplied j k v fs d missing = elim (Bool-cases (j == k)) [
    | inl same ↦
        let absent : get j fs ≡ none =
          ap (λ (i : Text). get i fs) (text_sound j k same) ∙ not_contains_key k fs missing in
        rw (same, absent) refl
    | inr differ ↦ rw differ refl
  ]

  given_or-none : (o : Option (Value N)) → given_or o none ≡ o
  given_or-none none = refl
  given_or-none (some v) = refl

  get-add_defaults :
      (j : Text) (ds fs : Fields N) → get j (add_defaults ds fs) ≡ given_or (get j fs) (get j ds)
  unfolding get add_defaults
  get-add_defaults j done fs = sym (given_or-none (get j fs))
  get-add_defaults j (field k v ds) fs = elim (Bool-cases (contains_key k fs)) [
    | inl known ↦ rw known (get-add_defaults j ds fs ∙ kept_given j k v fs (get j ds) known)
    | inr missing ↦ rw missing (
        get-add_defaults j ds (insert k v fs)
        ∙ ap (λ o. given_or o (get j ds)) (get-insert j k v fs)
        ∙ supplied j k v fs (get j ds) missing)
  ]

  -- The options of a request that are an object, or are absent.
  abbrev pub options_of : Option (Fields N) → Value N
  options_of none = null
  options_of (some fs) = object fs

  abbrev pub defaults_of : Option (Value N) → Fields N
  defaults_of none = done
  defaults_of (some ds) = as_object ds

  get-merged :
      (o : Option (Value N)) (h : RegisteredHandler N) (given : Option (Fields N)) (j : Text)
      → h.default_options ≡ o
      → get j (as_object (merged_options h (options_of given)))
        ≡ given_or (get j (as_object (options_of given))) (get j (defaults_of o))
  unfolding merged_options get
  get-merged none h none j known = rw known refl
  get-merged none h (some fs) j known = rw known (sym (given_or-none (get j fs)))
  get-merged (some ds) h none j known = rw known refl
  get-merged (some ds) h (some fs) j known = rw known (get-add_defaults j (as_object ds) fs)

  -- The options that `merged_options` makes of an object of given options, or of none, hold under each
  -- key the given value, else the default of the room type, else nothing. A default that is not an
  -- object counts as none here.
  pub merged_options-get :
      (h : RegisteredHandler N) (given : Option (Fields N)) (j : Text)
      → get j (as_object (merged_options h (options_of given)))
        ≡ given_or (get j (as_object (options_of given))) (get j (defaults_of h.default_options))
  merged_options-get h given j = get-merged h.default_options h given j refl
