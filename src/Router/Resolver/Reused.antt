-- ===== src/Router/Resolver/Reused.antt =====
-- src/router/resolver.rs: how long an answer that was stored is found again.
use rog.Prelude.{
  ℕ, ◌+◌, ◌<◌, ◌≡◌, ◌≢◌, refl, sym, ap, ◌∙◌, lt→ltb, bytes_eq, bytes_eq_iff, Bool-cases, inl, inr,
  Option, none, some, List, [], ◌∷◌, arith,
}
use rog.Prelude.Word.{Bytes}
use rog.Router.Resolver.{
  Answer, answered, failed, Servers, insert, keep_fresh, cleanup_cache, fresh, ask,
  get_cache_expiration, is_err, stored, cache_key, look, Phase, asking, hit, replied, Resolution,
  System, begin_at, store_from, store_at, Action, begins, stores, cleans, step, run,
}

module _ (Ip : Type 0) where
  -- A call that waits, waits for another key.
  abbrev pub Elsewhere : Bytes → Option (Resolution Ip) → Type 0
  Elsewhere key none = Unit
  Elsewhere key (some r) = r.phase ≡ asking → cache_key Ip r.addr r.dns_config ≢ key

  -- Each cleanup comes before a time, and each answer that is stored is one for another key.
  abbrev pub Undisturbed : Bytes → ℕ → System Ip → List (Action Ip) → Type 0
  Undisturbed key expiry s [] = Unit
  Undisturbed key expiry s (begins i addr dns_config now ∷ rest) =
      Undisturbed key expiry (step Ip (begins i addr dns_config now) s) rest
  Undisturbed key expiry s (stores i servers now ∷ rest) =
      Elsewhere key (s.calls i) × Undisturbed key expiry (step Ip (stores i servers now) s) rest
  Undisturbed key expiry s (cleans now ∷ rest) =
      (now < expiry) × Undisturbed key expiry (step Ip (cleans now) s) rest

  fresh-stored :
      (a : Answer Ip) (t now : ℕ)
      → now < t + get_cache_expiration Ip (is_err Ip a)
      → fresh Ip now (some (stored Ip t a)) ≡ some a
  fresh-stored (answered ips) t now m = rw (lt→ltb now (t + 180000) m) refl
  fresh-stored (failed e) t now m = rw (lt→ltb now (t + 60000) m) refl

  kept-stored :
      (a : Answer Ip) (t now : ℕ)
      → now < t + get_cache_expiration Ip (is_err Ip a)
      → keep_fresh Ip now (some (stored Ip t a)) ≡ some (stored Ip t a)
  kept-stored (answered ips) t now m = rw (lt→ltb now (t + 180000) m) refl
  kept-stored (failed e) t now m = rw (lt→ltb now (t + 60000) m) refl

  begin_at-cache :
      (i : ℕ) (addr dns_config : Bytes) (now : ℕ) (call : Option (Resolution Ip)) (s : System Ip)
      → (begin_at Ip i addr dns_config now call s).cache ≡ s.cache
  begin_at-cache i addr dns_config now none s = refl
  begin_at-cache i addr dns_config now (some r) s = refl

  store_from-cache :
      (key : Bytes) (i : ℕ) (a : Answer Ip) (now : ℕ) (r : Resolution Ip) (phase : Phase Ip)
      (s : System Ip)
      → (phase ≡ asking → cache_key Ip r.addr r.dns_config ≢ key)
      → (store_from Ip i a now r phase s).cache key ≡ s.cache key
  unfolding insert
  store_from-cache key i a now r asking s o =
      elim (Bool-cases (bytes_eq key (cache_key Ip r.addr r.dns_config))) [
        | inl b ↦ absurd (o refl (sym ((bytes_eq_iff _ _).0 b)))
        | inr b ↦ rw b refl
      ]
  store_from-cache key i a now r (hit b t) s o = refl
  store_from-cache key i a now r (replied b t) s o = refl

  store_at-cache :
      (key : Bytes) (i : ℕ) (servers : Servers Ip) (now : ℕ) (call : Option (Resolution Ip))
      (s : System Ip)
      → Elsewhere key call
      → (store_at Ip i servers now call s).cache key ≡ s.cache key
  store_at-cache key i servers now none s o = refl
  store_at-cache key i servers now (some r) s o =
      store_from-cache key i (ask Ip servers r.addr r.dns_config) now r r.phase s o

  run-cache :
      (key : Bytes) (a : Answer Ip) (t : ℕ) (later : List (Action Ip)) (s : System Ip)
      → s.cache key ≡ some (stored Ip t a)
      → Undisturbed key (t + get_cache_expiration Ip (is_err Ip a)) s later
      → (run Ip s later).cache key ≡ some (stored Ip t a)
  unfolding run step cleanup_cache
  run-cache key a t [] s q u = q
  run-cache key a t (begins i addr dns_config now ∷ rest) s q u =
      run-cache key a t rest (step Ip (begins i addr dns_config now) s)
        (ap (λ f. f key) (begin_at-cache i addr dns_config now (s.calls i) s) ∙ q) u
  run-cache key a t (stores i servers now ∷ rest) s q u =
      run-cache key a t rest (step Ip (stores i servers now) s)
        (store_at-cache key i servers now (s.calls i) s u.0 ∙ q) u.1
  run-cache key a t (cleans now ∷ rest) s q u =
      run-cache key a t rest (step Ip (cleans now) s)
        (ap (keep_fresh Ip now) q ∙ kept-stored a t now u.0) u.1

  -- What the servers said to a call that waited, and the system once it is stored.
  abbrev reply : Servers Ip → Resolution Ip → Answer Ip
  reply servers r = ask Ip servers r.addr r.dns_config

  stored_under :
      (i : ℕ) (servers : Servers Ip) (t : ℕ) (call : Option (Resolution Ip)) (r : Resolution Ip)
      (s : System Ip)
      → call ≡ some r
      → r.phase ≡ asking
      → (store_at Ip i servers t call s).cache (cache_key Ip r.addr r.dns_config)
        ≡ some (stored Ip t (reply servers r))
  unfolding insert
  stored_under i servers t call r s q p =
      rw (q, p, (bytes_eq_iff (cache_key Ip r.addr r.dns_config) _).1 refl) refl

  begin_at-hit :
      (j : ℕ) (addr dns_config : Bytes) (now t : ℕ) (a : Answer Ip) (call : Option (Resolution Ip))
      (s : System Ip)
      → call ≡ none
      → s.cache (cache_key Ip addr dns_config) ≡ some (stored Ip t a)
      → now < t + get_cache_expiration Ip (is_err Ip a)
      → (begin_at Ip j addr dns_config now call s).calls j
        ≡ some (record { addr = addr; dns_config = dns_config; phase = hit a now })
  unfolding look
  begin_at-hit j addr dns_config now t a call s q e m =
      rw (q, e, fresh-stored a t now m) (ground arith)

  -- A call of `resolve_ip` waits, and returns its servers' answer, once that is stored. Any steps of any calls follow, where
  -- no call that waited for the same cache key stores its own answer, and no cleanup comes after the
  -- answer's time. Then a new call with this key, which looks before the answer's time is over (three
  -- minutes from when it was stored, or one for a failure), returns that very answer and asks no
  -- server: the cleanup has not lost it, and no answer to another key has replaced it.
  pub reply_reused :
      (s : System Ip) (i : ℕ) (r : Resolution Ip) (servers : Servers Ip) (t : ℕ)
      (later : List (Action Ip)) (j : ℕ) (addr dns_config : Bytes) (now : ℕ)
      → s.calls i ≡ some r
      → r.phase ≡ asking
      → Undisturbed
          (cache_key Ip r.addr r.dns_config)
          (t + get_cache_expiration Ip (is_err Ip (ask Ip servers r.addr r.dns_config)))
          (step Ip (stores i servers t) s)
          later
      → (run Ip (step Ip (stores i servers t) s) later).calls j ≡ none
      → cache_key Ip addr dns_config ≡ cache_key Ip r.addr r.dns_config
      → now < t + get_cache_expiration Ip (is_err Ip (ask Ip servers r.addr r.dns_config))
      → ((step Ip (stores i servers t) s).calls i
          ≡ some (record r { phase = replied (ask Ip servers r.addr r.dns_config) t }))
        × ((step Ip
                (begins j addr dns_config now)
                (run Ip (step Ip (stores i servers t) s) later)).calls
              j
            ≡ some (record {
              addr = addr;
              dns_config = dns_config;
              phase = hit (ask Ip servers r.addr r.dns_config) now;
            }))
  unfolding step
  reply_reused s i r servers t later j addr dns_config now q p u o same m =
      let s₁ = step Ip (stores i servers t) s in
      let at = stored_under i servers t (s.calls i) r s q p in
      let kept = run-cache (cache_key Ip r.addr r.dns_config) (reply servers r) t later s₁ at u in
      (
        rw (q, p) (ground arith),
        begin_at-hit j addr dns_config now t (reply servers r) _ (run Ip s₁ later) o (rw same kept)
            m,
      )
