-- ===== src/Streams/Cached.antt =====
-- The code that every `read` of src/stream/ has: first what the last message left in the cache, else
-- the next message, whose excess goes into the cache. `next` gives the payload of that message.
use rog.Prelude.{
  ℕ, ◌+◌, ◌-◌, ltb, leb, if◌then◌else◌, [], Result, ok, ◌>>=◌, length, take, drop, min,
}
use rog.Prelude.Word.{Bytes}

pub record Cache : Type 0 where
  pub cache : Bytes
  pub cache_pos : ℕ

abbrev pub cleared : Cache
cleared = record { cache = []; cache_pos = 0 }

-- What is copied out of the cache, and the cache behind it.
unfoldable pub copy_cached : ℕ → Cache → Bytes × Cache
copy_cached n c =
    let available = length c.cache - c.cache_pos in
    let to_copy = min available n in
    (
      take to_copy (drop c.cache_pos c.cache),
      (if leb (length c.cache) (c.cache_pos + to_copy)
          then cleared
          else record c { cache_pos = c.cache_pos + to_copy }),
    )

-- The same for a fresh payload, on a cache that was cleared.
unfoldable pub copy_payload : ℕ → Bytes → Bytes × Cache
copy_payload n payload =
    let to_copy = min n (length payload) in
    (
      take to_copy payload,
      (if ltb to_copy (length payload)
          then record { cache = drop to_copy payload; cache_pos = 0 }
          else cleared),
    )

-- A read into a buffer of `n` bytes: what was copied, the cache and the source behind it.
unfoldable pub read_cached :
    {S : Type 0} → (S → Result (Bytes × S)) → ℕ → Cache → S → Result (Bytes × (Cache × S))
read_cached next n c s =
    if ltb c.cache_pos (length c.cache)
    then (let (got, c) = copy_cached n c in ok (got, (c, s)))
    else do (payload, s) ← next s; let (got, c) = copy_payload n payload; ok (got, (c, s))
