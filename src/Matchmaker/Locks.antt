-- ===== src/Matchmaker/Locks.antt =====
-- The entries of `create_locks` around a creation by `join_or_create_inner` of
-- crates/colyseus/src/matchmaker.rs.
use colyseus_rs.Base.{
  ℕ, ◌-◌, ◌≤◌, none, some, Text, text-reflexive, List, text_eq, ◌≡◌, refl, ap, ◌∙◌, arith,
  Bool-cases, inl, inr, Eq,
}
use colyseus_rs.Base.Result.{ok, err}
use colyseus_rs.Base.Maps.{lookup, Distinct, lookup-put, lookup-erase}
use colyseus_rs.Json.{Value}
use colyseus_rs.Driver.{Numbers, Condition}
use colyseus_rs.Room.{ServerError}
use colyseus_rs.Matchmaker.{RegisteredHandler, CreateRoomOutcome}
use colyseus_rs.Matchmaker.Handler.{match_conditions, merged_options}
use colyseus_rs.Matchmaker.Environment.{World, Environment, continue_with}
use colyseus_rs.Matchmaker.Rooms.{
  find_match, create_room_inner, drop_lock, release_create_lock, released,
}
use colyseus_rs.Matchmaker.Join.{match_or_create, or_create, left_on_error, is_listing, verified}

lookup-drop_lock :
    (key : Text) (n : ℕ) (locks : List (Text × ℕ))
    → lookup key locks ≡ some n
    → lookup key (drop_lock key locks) ≡ some (n - 1)
unfolding drop_lock
lookup-drop_lock key n locks held =
    rw (held, drop_lock) (ground (arith, lookup-put key key (n - 1) locks, text-reflexive key))

lookup-release_create_lock :
    (key : Text) (n : ℕ) (locks : List (Text × ℕ))
    → Distinct locks
    → lookup key locks ≡ some n
    → n ≤ 1
    → lookup key (release_create_lock key locks) ≡ none
unfolding release_create_lock
lookup-release_create_lock key n locks d held last =
    rw (held, release_create_lock)
      (ground (arith, lookup-erase key key locks d, text-reflexive key))

module _ {E N : Type 0} ⦃e : Eq N⦄ (num : Numbers N) where
  verified-same :
      (h : RegisteredHandler N) (filter : List (Text × Condition N)) (options : Value N)
      (o : CreateRoomOutcome N) (v : World E N)
      → (verified num h filter options o v).1 ≡ v
  unfolding verified
  verified-same h filter options o v = elim (Bool-cases o.created) [
    | inl new ↦ rw (new, verified) refl
    | inr reused ↦
        elim (Bool-cases (
          is_listing o.listing.room_id
            (find_match num h (match_conditions h options) filter options v.mm))) [
              | inl same ↦ rw (reused, same, verified) refl
              | inr other ↦ rw (reused, other, verified) refl
            ]
  ]

module _ {E N S : Type 0} ⦃e : Eq N⦄ (num : Numbers N) (show_value : Value N → Text)
    (env : Environment E N S) where
  -- Where the creation under the lock of `join_or_create_inner` fails, its error is the result, and the entry
  -- of the lock stays although this task's reference to it is gone.
  pub match_or_create-leaks :
      (room_name : Text) (h : RegisteredHandler N) (filter : List (Text × Condition N))
      (options : Value N) (lock : Text) (w v : World E N) (x : ServerError) (n : ℕ)
      → find_match num h (match_conditions h options) filter options w.mm ≡ none
      → create_room_inner num show_value env room_name (merged_options h options) w ≡ (err x, v)
      → lookup lock v.mm.create_locks ≡ some n
      → ((match_or_create num show_value env room_name h filter options lock w).0 ≡ err x)
        × (lookup lock
              (match_or_create num show_value env room_name h filter options lock
                w).1.mm.create_locks
            ≡ some (n - 1))
  unfolding match_or_create or_create
  match_or_create-leaks room_name h filter options lock w v x n missing failed held =
      let end = record v { mm = record v.mm { create_locks = drop_lock lock v.mm.create_locks } } in
      let is : match_or_create num show_value env room_name h filter options lock w ≡ (err x, end) =
        ap (λ o. or_create num show_value env room_name h filter options lock o w) missing
        ∙ ap
            (λ r.
              continue_with (left_on_error lock r)
                (λ o u. released lock (verified num h filter options o u)))
            failed in
      (
        ap (λ r. r.0) is,
        ap (λ r. lookup lock r.1.mm.create_locks) is
            ∙ lookup-drop_lock lock n v.mm.create_locks held,
      )

  -- Where the creation succeeds, the last task to hold the lock removes its entry, if the keys are distinct.
  pub match_or_create-releases :
      (room_name : Text) (h : RegisteredHandler N) (filter : List (Text × Condition N))
      (options : Value N) (lock : Text) (w v : World E N) (o : CreateRoomOutcome N) (n : ℕ)
      → find_match num h (match_conditions h options) filter options w.mm ≡ none
      → create_room_inner num show_value env room_name (merged_options h options) w ≡ (ok o, v)
      → Distinct v.mm.create_locks
      → lookup lock v.mm.create_locks ≡ some n
      → n ≤ 1
      → lookup lock
          (match_or_create num show_value env room_name h filter options lock w).1.mm.create_locks
        ≡ none
  unfolding match_or_create or_create verified
  match_or_create-releases room_name h filter options lock w v o n missing made d held last =
      let same : (verified num h filter options o v).1 ≡ v =
        verified-same num h filter options o v in
      let is : match_or_create num show_value env room_name h filter options lock w
          ≡ released lock (verified num h filter options o v) =
        ap (λ o. or_create num show_value env room_name h filter options lock o w) missing
        ∙ ap
            (λ r.
              continue_with (left_on_error lock r)
                (λ o u. released lock (verified num h filter options o u)))
            made in
      ap (λ r. lookup lock r.1.mm.create_locks) is
      ∙ ap (λ (u : World E N). lookup lock (release_create_lock lock u.mm.create_locks)) same
      ∙ lookup-release_create_lock lock n v.mm.create_locks d held last
