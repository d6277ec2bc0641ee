-- ===== src/Object/Kept.antt =====
-- src/object.rs: an object keeps the connector that it has for a name.
use rog.Prelude.{
  ℕ, ◌≡◌, refl, ap, ◌∙◌, sym, Bool, true, false, if◌then◌else◌, bytes_eq, Option, none, some, List,
  [], ◌∷◌, Result, ok, err, panics, Bool-cases, inl, inr, ◌>>=◌, bytes_eq_refl, bytes_eq_iff,
  >>=-eq-ok,
}
use rog.Prelude.Word.{Bytes}
use rog.Prelude.Maps.{Map, insert}
use rog.Address.{RunAddr}
use rog.Relay.Connectors.{get_or_create, kept, cached_or}
use rog.Object.{Outcome, routed, shaken, serve, serve_all}

module _ {Conf C : Type 0} (create : Conf → Result C) where
  abbrev Has : Bytes → C → Map C → Type 0
  Has name c cache = cache name ≡ some c

  insert-Has :
      (name other : Bytes) (c c' : C) (cache : Map C)
      → Has name c cache
      → cache other ≡ none
      → Has name c (insert other c' cache)
  insert-Has name other c c' cache h n = elim (Bool-cases (bytes_eq name other)) [
    | inl b ↦
        let e : name ≡ other = (bytes_eq_iff name other).0 b in
        absurd (let f : cache other ≡ some c = ap cache (sym e) ∙ h in cc)
    | inr b ↦ rw b h
  ]

  made-Has :
      (name other : Bytes) (c : C) (cache : Map C) (made : Result C)
      → Has name c cache
      → cache other ≡ none
      → Has name c (kept create cache (made >>= λ c. ok (c, insert other c cache)))
  made-Has name other c cache (ok c') h n = insert-Has name other c c' cache h n
  made-Has name other c cache (err k m) h n = h
  made-Has name other c cache panics h n = h

  cached_or-Has :
      (name other : Bytes) (c : C) (conf : Conf) (cache : Map C) (o : Option C)
      → Has name c cache
      → cache other ≡ o
      → Has name c (kept create cache (cached_or create o other conf cache))
  cached_or-Has name other c conf cache none h e = made-Has name other c cache (create conf) h e
  cached_or-Has name other c conf cache (some c') h e = h

  module _ {S U : Type 0} (handshake : S → Result ((RunAddr × Option Bytes) × S))
      (post_handshake : Bool → ℕ → S → Result S) (route : RunAddr → Bytes) (connectors : Map Conf)
      (connect : C → Bytes → Result U) where
    routed-Has :
        (name other : Bytes) (c : C) (cache : Map C) (addr : RunAddr) (payload_cache : Option Bytes)
        (stream : S) (o : Option Conf)
        → Has name c cache
        → Has name c
            (routed handshake post_handshake route connectors create connect cache other addr
              payload_cache stream o).0
    unfolding get_or_create
    routed-Has name other c cache addr payload_cache stream none h = h
    routed-Has name other c cache addr payload_cache stream (some conf) h =
        cached_or-Has name other c conf cache (cache other) h refl

    if-Has :
        (name : Bytes) (c : C) (b : Bool) (x y : Map C × Outcome S U)
        → Has name c x.0
        → Has name c y.0
        → Has name c (if b then x else y).0
    if-Has name c true x y h k = h
    if-Has name c false x y h k = k

    shaken-Has :
        (name : Bytes) (c : C) (cache : Map C) (o : Result ((RunAddr × Option Bytes) × S))
        → Has name c cache
        → Has name c (shaken handshake post_handshake route connectors create connect cache o).0
    shaken-Has name c cache (ok ((addr, payload_cache), stream)) h =
        if-Has name c addr.udp _ _ h (
          routed-Has name (route addr) c cache addr payload_cache stream (connectors (route addr))
            h)
    shaken-Has name c cache (err k m) h = h
    shaken-Has name c cache panics h = h

    serve_all-Has :
        (name : Bytes) (c : C) (cache : Map C) (streams : List S)
        → Has name c cache
        → Has name c
            (serve_all handshake post_handshake route connectors create connect cache streams)
    unfolding serve_all serve
    serve_all-Has name c cache [] h = h
    serve_all-Has name c cache (stream ∷ rest) h =
        serve_all-Has name c
          (serve handshake post_handshake route connectors create connect cache stream).0 rest
          (shaken-Has name c cache (handshake stream) h)

    got-Has :
        (name : Bytes) (conf : Conf) (c : C) (cache cache' : Map C) (o : Option C)
        → cache name ≡ o
        → cached_or create o name conf cache ≡ ok (c, cache')
        → Has name c cache'
    got-Has name conf c cache cache' (some c') n e =
        let f : c' ≡ c = cc in
        let g : cache ≡ cache' = cc in ap (λ m. m name) (sym g) ∙ n ∙ ap some f
    got-Has name conf c cache cache' none n e =
        let (c', made, f) = >>=-eq-ok (create conf) _ e in
        let f' : c' ≡ c = cc in
        let g : insert name c' cache ≡ cache' = cc in
        ap (λ m. m name) (sym g) ∙ rw (bytes_eq_refl name) (ap some f')

    -- Once an object has a connector for a name, every later stream for that name gets the same one and
    -- none is created, whatever streams are accepted in between, and whatever becomes of them.
    pub connector_kept :
        (name : Bytes) (conf conf' : Conf) (c : C) (cache cache' : Map C) (streams : List S)
        → get_or_create create name conf cache ≡ ok (c, cache')
        → let later =
            serve_all handshake post_handshake route connectors create connect cache' streams in
          get_or_create create name conf' later ≡ ok (c, later)
    unfolding get_or_create
    connector_kept name conf conf' c cache cache' streams e =
        let h =
          serve_all-Has name c cache' streams
            (got-Has name conf c cache cache' (cache name) refl e) in
        rw h refl
