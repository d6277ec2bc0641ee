-- ===== src/Router/Resolver/Sources.antt =====
-- src/router/resolver.rs: the calls whose servers gave the answers of the cache.
use rog.Prelude.{
  ℕ, ◌+◌, ◌<◌, ◌≡◌, sym, ap, ◌∙◌, ◌==◌, Bool-cases, inl, inr, Option, none, some, arith,
}
use rog.Prelude.Word.{Bytes}
use rog.Prelude.Maps.{Table, set}
use rog.Router.Resolver.{
  Answer, Servers, ResolveResult, ask, get_cache_expiration, is_err, stored, cache_key, asking, hit,
  replied, Resolution, System,
}

module _ (Ip : Type 0) where
  abbrev pub key_of : Resolution Ip → Bytes
  key_of r = cache_key Ip r.addr r.dns_config

  -- A call for a key whose servers gave an answer, which is kept from a time on.
  pub record Source (calls : Table (Resolution Ip)) (key : Bytes) (a : Answer Ip) (t : ℕ)
      : Type 0 where
    pub i : ℕ
    pub call : Resolution Ip
    pub at : calls i ≡ some call
    pub phase_is : call.phase ≡ replied a t
    pub same_key : cache_key Ip call.addr call.dns_config ≡ key
    pub servers : Servers Ip
    pub asked : a ≡ ask Ip servers call.addr call.dns_config

  -- The call is not there, or waits for its servers.
  abbrev pub Open : Option (Resolution Ip) → Type 0
  Open none = Unit {0}
  Open (some r) = r.phase ≡ asking

  set-other :
      (i j : ℕ) (r v : Resolution Ip) (calls : Table (Resolution Ip)) (a : Answer Ip) (t : ℕ)
      → Open (calls i)
      → calls j ≡ some r
      → r.phase ≡ replied a t
      → set i v calls j ≡ some r
  set-other i j r v calls a t o e p = elim (Bool-cases (j == i)) [
    | inl b ↦
        let q : j ≡ i = ground (arith, b) in
        let f : calls i ≡ some r = ap calls (sym q) ∙ e in
        absurd (let g : r.phase ≡ asking = (rw f at o) in cc)
    | inr b ↦ rw b e
  ]

  Source-set :
      (i : ℕ) (v : Resolution Ip) (calls : Table (Resolution Ip)) (key : Bytes) (a : Answer Ip)
      (t : ℕ)
      → Open (calls i)
      → Source calls key a t
      → Source (set i v calls) key a t
  Source-set i v calls key a t o s = record {
    i = s.i;
    call = s.call;
    at = set-other i s.i s.call v calls a t o s.at s.phase_is;
    phase_is = s.phase_is;
    same_key = s.same_key;
    servers = s.servers;
    asked = s.asked;
  }

  pub record Inv (s : System Ip) : Type 0 where
    pub kept :
        (key : Bytes) (res : ResolveResult Ip)
        → s.cache key ≡ some res
        → (a : Answer Ip) × (t : ℕ) × Source s.calls key a t × (res ≡ stored Ip t a)
    pub hits :
        (i : ℕ) (r : Resolution Ip) (a : Answer Ip) (now : ℕ)
        → s.calls i ≡ some r
        → r.phase ≡ hit a now
        → (t : ℕ) × Source s.calls (key_of r) a t
          × (now < t + get_cache_expiration Ip (is_err Ip a))

  -- A call that has begun, or a call that waited, is put down with what it has now.
  pub set-Inv :
      (i : ℕ) (v : Resolution Ip) (s : System Ip)
      → Open (s.calls i)
      → ((a : Answer Ip) (now : ℕ)
          → v.phase ≡ hit a now
          → (t : ℕ) × Source s.calls (key_of v) a t
            × (now < t + get_cache_expiration Ip (is_err Ip a)))
      → Inv s
      → Inv (record s { calls = set i v s.calls })
  set-Inv i v s o h n = record {
    kept = λ key res q.
        let (a, t, src, e) = n.kept key res q in (a, t, Source-set i v s.calls key a t o src, e);
    hits = λ j r a now q p. elim (Bool-cases (j == i)) [
      | inl b ↦
          let e : v ≡ r = (let w = (rw b at q) in cc) in
          let (t, src, m) = h a now (rw e p) in
          (t, rw⁻¹ e (Source-set i v s.calls (key_of v) a t o src), m)
      | inr b ↦
          let (t, src, m) = n.hits j r a now (rw b at q) p in
          (t, Source-set i v s.calls (key_of r) a t o src, m)
    ];
  }
