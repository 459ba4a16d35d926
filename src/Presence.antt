-- ===== src/Presence.antt =====
-- `LocalPresence` of crates/colyseus/src/presence.rs. A `DashMap` or `HashMap` is the list of its entries. A
-- topic is the list of the messages sent to its channel; of tokio's channels, which keep 256 messages for a
-- subscriber who is slow, only the sending is here.
pub mod Laws
use colyseus_rs.Base.{
  ℕ, Bool, true, false, Option, none, some, Text, List, [], ◌∷◌, ◌++◌, text, ◌==◌, text_eq, length,
  drop,
}
use colyseus_rs.Base.Maps.{lookup, put, erase}
use colyseus_rs.Json.{Value}

pub record LocalPresence (N : Type 0) : Type 0 where
  pub topics : List (Text × List (Value N))
  pub kv : List (Text × Value N)
  pub hashes : List (Text × List (Text × Value N))

module _ {N : Type 0} where
  abbrev pub new : LocalPresence N
  new = record { topics = []; kv = []; hashes = [] }

  send_to : Text → Value N → Option (List (Value N)) → LocalPresence N → LocalPresence N
  send_to topic message none p = p
  send_to topic message (some sent) p = record p {
    topics = put topic (sent ++ (message ∷ [])) p.topics;
  }

  -- A message to a topic that nobody has subscribed to is dropped.
  unfoldable pub publish : Text → Value N → LocalPresence N → LocalPresence N
  unfolding send_to
  publish topic message p = send_to topic message (lookup topic p.topics) p

  subscribe_in : Text → Option (List (Value N)) → LocalPresence N → ℕ × LocalPresence N
  subscribe_in topic none p = (0, record p { topics = put topic [] p.topics })
  subscribe_in topic (some sent) p = (length sent, p)

  -- The place in the topic where the subscriber begins to read.
  unfoldable pub subscribe : Text → LocalPresence N → ℕ × LocalPresence N
  unfolding subscribe_in
  subscribe topic p = subscribe_in topic (lookup topic p.topics) p

  unfoldable pub set : Text → Value N → LocalPresence N → LocalPresence N
  set key value p = record p { kv = put key value p.kv }

  unfoldable pub get : Text → LocalPresence N → Option (Value N)
  get key p = lookup key p.kv

  unfoldable pub del : Text → LocalPresence N → LocalPresence N
  del key p = record p { kv = erase key p.kv }

  -- `unwrap_or_default`, and what `entry(…).or_default()` starts from.
  abbrev pub or_default : Option (List (Text × Value N)) → List (Text × Value N)
  or_default none = []
  or_default (some h) = h

  unfoldable pub hset : Text → Text → Value N → LocalPresence N → LocalPresence N
  hset key name value p = record p {
    hashes = put key (put name value (or_default (lookup key p.hashes))) p.hashes;
  }

  abbrev pub field_of : Text → Option (List (Text × Value N)) → Option (Value N)
  field_of name none = none
  field_of name (some h) = lookup name h

  unfoldable pub hget : Text → Text → LocalPresence N → Option (Value N)
  hget key name p = field_of name (lookup key p.hashes)

  abbrev pub hdel_in :
      Text → Text → Option (List (Text × Value N)) → LocalPresence N → LocalPresence N
  hdel_in key name none p = p
  hdel_in key name (some h) p = record p { hashes = put key (erase name h) p.hashes }

  unfoldable pub hdel : Text → Text → LocalPresence N → LocalPresence N
  hdel key name p = hdel_in key name (lookup key p.hashes) p

  unfoldable pub hgetall : Text → LocalPresence N → List (Text × Value N)
  hgetall key p = or_default (lookup key p.hashes)
