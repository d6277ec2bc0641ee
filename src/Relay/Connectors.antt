-- ===== src/Relay/Connectors.antt =====
-- src/object.rs and src/object/raw_udp.rs: the cache of connectors by name, which all connections of an
-- object share under one lock.
use rog.Prelude.{Option, none, some, Result, ok, err, panics, ◌>>=◌}
use rog.Prelude.Word.{Bytes}
use rog.Prelude.Maps.{Map, insert}

module _ {Conf C : Type 0} (create : Conf → Result C) where
  abbrev pub cached_or : Option C → Bytes → Conf → Map C → Result (C × Map C)
  cached_or (some connector) name conf cache = ok (connector, cache)
  cached_or none name conf cache = do c ← create conf; ok (c, insert name c cache)

  unfoldable pub get_or_create : Bytes → Conf → Map C → Result (C × Map C)
  get_or_create name conf cache = cached_or (cache name) name conf cache

  abbrev pub kept : Map C → Result (C × Map C) → Map C
  kept cache (ok (c, cache')) = cache'
  kept cache (err k m) = cache
  kept cache panics = cache
