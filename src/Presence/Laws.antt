-- ===== src/Presence/Laws.antt =====
-- What the reads of `LocalPresence` of crates/colyseus/src/presence.rs see after its writes.
use colyseus_rs.Base.{
  ◌&&◌, Option, none, some, Text, List, ◌==◌, text_eq, if◌then◌else◌, All, ◌≡◌, refl, Option-cases,
  inl, inr,
}
use colyseus_rs.Base.Maps.{
  lookup, put, erase, Distinct, put-Distinct, erase-Distinct, lookup-All, All-put,
}
use colyseus_rs.Json.{Value}
use colyseus_rs.Presence.{LocalPresence, set, get, del, hset, hget, hdel, or_default, hdel_in}

-- The calls that write.
pub data Write (N : Type 0) : Type 0 where
  sets : Text → Value N → Write N
  dels : Text → Write N
  hsets : Text → Text → Value N → Write N
  hdels : Text → Text → Write N

module _ {N : Type 0} where
  -- No key stands twice, nor a field of a hash.
  pub record IsKeyed (p : LocalPresence N) : Type 0 where
    pub keys : Distinct p.kv
    pub hash_keys : Distinct p.hashes
    pub fields : All (λ h. Distinct h.1) p.hashes

  pub write : Write N → LocalPresence N → LocalPresence N
  write (sets key value) = set key value
  write (dels key) = del key
  write (hsets key name value) = hset key name value
  write (hdels key name) = hdel key name

  or_default-Distinct :
      (key : Text) (hashes : List (Text × List (Text × Value N)))
      → All (λ h. Distinct h.1) hashes
      → Distinct (or_default (lookup key hashes))
  or_default-Distinct key hashes a = elim (Option-cases (lookup key hashes)) [
    | inl absent ↦ rw absent tt
    | inr (h, there) ↦ rw there (lookup-All (λ h. Distinct h.1) key hashes a there)
  ]

  hdel_in-IsKeyed :
      (key name : Text) (p : LocalPresence N) (o : Option (List (Text × Value N)))
      → lookup key p.hashes ≡ o
      → IsKeyed p
      → IsKeyed (hdel_in key name o p)
  hdel_in-IsKeyed key name p none there k = k
  hdel_in-IsKeyed key name p (some h) there k = record {
    keys = k.keys;
    hash_keys = put-Distinct key (erase name h) p.hashes k.hash_keys;
    fields =
        All-put (λ h. Distinct h.1) key (erase name h) p.hashes
          (erase-Distinct name h (lookup-All (λ h. Distinct h.1) key p.hashes k.fields there))
          k.fields;
  }

  -- Every write keeps the keys, and the fields of each hash, distinct.
  pub write-IsKeyed : (c : Write N) (p : LocalPresence N) → IsKeyed p → IsKeyed (write c p)
  unfolding write set del hset hdel
  write-IsKeyed (sets key value) p k = record {
    keys = put-Distinct key value p.kv k.keys;
    hash_keys = k.hash_keys;
    fields = k.fields;
  }
  write-IsKeyed (dels key) p k = record {
    keys = erase-Distinct key p.kv k.keys;
    hash_keys = k.hash_keys;
    fields = k.fields;
  }
  write-IsKeyed (hsets key name value) p k =
      let h = put name value (or_default (lookup key p.hashes)) in
      record {
        keys = k.keys;
        hash_keys = put-Distinct key h p.hashes k.hash_keys;
        fields =
            All-put (λ h. Distinct h.1) key h p.hashes
              (put-Distinct name value (or_default (lookup key p.hashes))
                (or_default-Distinct key p.hashes k.fields))
              k.fields;
      }
  write-IsKeyed (hdels key name) p k = hdel_in-IsKeyed key name p (lookup key p.hashes) refl k

  -- The value under a key after a write.
  abbrev pub get_after : Write N → Text → LocalPresence N → Option (Value N)
  get_after (sets key value) j p = if j == key then some value else get j p
  get_after (dels key) j p = if j == key then none else get j p
  get_after _ j p = get j p

  -- The field of a hash after a write.
  abbrev pub hget_after : Write N → Text → Text → LocalPresence N → Option (Value N)
  hget_after (hsets key name value) j g p = if j == key && g == name then some value else hget j g p
  hget_after (hdels key name) j g p = if j == key && g == name then none else hget j g p
  hget_after _ j g p = hget j g p
