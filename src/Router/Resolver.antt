-- ===== src/Router/Resolver.antt =====
-- src/router/resolver.rs: the cache of resolved addresses. An `Instant` is a number of milliseconds;
-- a call reads the clock when it looks into the cache and again before it stores the answer. Between these
-- two it waits, with no lock, so that calls overlap in any way. The three ways to ask a name server
-- are the fields of a record.
pub mod Explained
pub mod Reused
pub mod Sources
use rog.Prelude.{
  ℕ, ◌+◌, ltb, if◌then◌else◌, Bool, true, false, ◌||◌, bytes_eq, Option, none, some, List, [], ◌∷◌,
  ◌++◌, length, take,
}
use rog.Prelude.Word.{Bytes, codes}
use rog.Prelude.Maps.{Table, set}

abbrev pub cache_expiration : ℕ
cache_expiration = 180000

abbrev pub negative_cache_expiration : ℕ
negative_cache_expiration = 60000

-- `str::starts_with`.
abbrev pub starts_with : Bytes → Bytes → Bool
starts_with s p = bytes_eq (take (length p) s) p

module _ (Ip : Type 0) where
  -- `Result<Vec<IpAddr>, String>`.
  pub data Answer : Type 0 where
    answered : List Ip → Answer
    failed : Bytes → Answer

  pub record Servers : Type 0 where
    pub default_dns : Bytes → Answer
    pub doh : Bytes → Bytes → Answer
    pub specific_dns : Bytes → Bytes → Answer

  pub record ResolveResult : Type 0 where
    pub ips : List Ip
    pub expiry : ℕ
    pub err : Option Bytes

  -- The hash map by its lookups.
  abbrev pub Cache : Type 0
  Cache = Bytes → Option ResolveResult

  unfoldable pub insert : Bytes → ResolveResult → Cache → Cache
  insert key res cache k = if bytes_eq k key then some res else cache k

  abbrev pub keep_fresh : ℕ → Option ResolveResult → Option ResolveResult
  keep_fresh now none = none
  keep_fresh now (some res) = if ltb now res.expiry then some res else none

  unfoldable pub cleanup_cache : ℕ → Cache → Cache
  cleanup_cache now cache k = keep_fresh now (cache k)

  abbrev pub cached_answer : List Ip → Option Bytes → Answer
  cached_answer ips none = answered ips
  cached_answer ips (some e) = failed e

  -- The answer that is still good, if there is one.
  abbrev pub fresh : ℕ → Option ResolveResult → Option Answer
  fresh now none = none
  fresh now (some res) = if ltb now res.expiry then some (cached_answer res.ips res.err) else none

  unfoldable pub ask : Servers → Bytes → Bytes → Answer
  ask servers addr [] = servers.default_dns addr
  ask servers addr (b ∷ bs) =
      if starts_with (b ∷ bs) (codes "doh://") || starts_with (b ∷ bs) (codes "https://")
      then servers.doh addr (b ∷ bs)
      else servers.specific_dns addr (b ∷ bs)

  abbrev pub get_cache_expiration : Bool → ℕ
  get_cache_expiration is_error = if is_error then negative_cache_expiration else cache_expiration

  abbrev pub is_err : Answer → Bool
  is_err (answered ips) = false
  is_err (failed e) = true

  abbrev pub stored : ℕ → Answer → ResolveResult
  stored now (answered ips) = record {
    ips = ips;
    expiry = now + get_cache_expiration false;
    err = none;
  }
  stored now (failed e) = record {
    ips = [];
    expiry = now + get_cache_expiration true;
    err = some e;
  }

  abbrev pub cache_key : Bytes → Bytes → Bytes
  cache_key addr dns_config = addr ++ b'-' ∷ dns_config

  -- Under the read lock.
  unfoldable pub look : ℕ → Bytes → Cache → Option Answer
  look now key cache = fresh now (cache key)

  -- Where a call of `resolve_ip` stands: it awaits the servers, or it has returned what it found in the
  -- cache, or what the servers said, with the time at which it looked, or from which it is kept.
  pub data Phase : Type 0 where
    asking : Phase
    hit replied : Answer → ℕ → Phase

  pub record Resolution : Type 0 where
    pub addr : Bytes
    pub dns_config : Bytes
    pub phase : Phase

  pub record System : Type 0 where
    pub cache : Cache
    pub calls : Table Resolution

  unfoldable pub new : System
  new = record { cache = λ key. none; calls = λ i. none }

  abbrev pub looked : ℕ → Option Answer → Phase
  looked now none = asking
  looked now (some a) = hit a now

  -- A call up to its answer or its first wait.
  abbrev begin_at : ℕ → Bytes → Bytes → ℕ → Option Resolution → System → System
  begin_at i addr dns_config now (some r) s = s
  begin_at i addr dns_config now none s = record s {
    calls =
        set i
          (record {
            addr = addr;
            dns_config = dns_config;
            phase = looked now (look now (cache_key addr dns_config) s.cache);
          })
          s.calls;
  }

  -- The servers have answered: the answer is stored under the write lock, and returned.
  abbrev store_from : ℕ → Answer → ℕ → Resolution → Phase → System → System
  store_from i a now r asking s = record {
    cache = insert (cache_key r.addr r.dns_config) (stored now a) s.cache;
    calls = set i (record r { phase = replied a now }) s.calls;
  }
  store_from i a now r _ s = s

  abbrev store_at : ℕ → Servers → ℕ → Option Resolution → System → System
  store_at i servers now none s = s
  store_at i servers now (some r) s = store_from i (ask servers r.addr r.dns_config) now r r.phase s

  -- What happens next, with a reading of the clock. The servers are those that a call has asked.
  pub data Action : Type 0 where
    begins : ℕ → Bytes → Bytes → ℕ → Action
    stores : ℕ → Servers → ℕ → Action
    cleans : ℕ → Action

  unfoldable pub step : Action → System → System
  unfolding look insert cleanup_cache ask
  step (begins i addr dns_config now) s = begin_at i addr dns_config now (s.calls i) s
  step (stores i servers now) s = store_at i servers now (s.calls i) s
  step (cleans now) s = record s { cache = cleanup_cache now s.cache }

  unfoldable pub run : System → List Action → System
  unfolding step
  run s [] = s
  run s (a ∷ rest) = run (step a s) rest
