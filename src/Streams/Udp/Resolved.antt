-- ===== src/Streams/Udp/Resolved.antt =====
-- src/stream/udp.rs: what the shared state holds after any writes.
use rog.Prelude.{
  ℕ, ◌==◌, ◌&&◌, ◌≡◌, refl, sym, ap, ◌∙◌, bytes_eq, bytes_eq_iff, bytes_eq_refl, Bool, true, false,
  Option, none, some, List, [], ◌∷◌, Result, ok, err, panics, arith, Bool-cases, inl, inr,
}
use rog.Prelude.Word.{Bytes}
use rog.Prelude.Maps.{Map, insert}
use rog.Text.{to_string, rsplit_once}
use rog.Text.Decimal.{rsplit_once-append, to_string-AllDigits}
use rog.Address.{with_port}
use rog.UdpPacket.{UdpPacket, SocketAddr}
use rog.Streams.Udp.{
  addr_eq, UdpResolveState, new, Net, named, learned, cached_or, resolve_dst_addr, after_writes,
}

with_port-host : (d e : Bytes) (p q : ℕ) → with_port d p ≡ with_port e q → d ≡ e
with_port-host d e p q h =
    let a = rsplit_once-append b':' d (to_string p) (omega arith) (to_string-AllDigits p) in
    let b = rsplit_once-append b':' e (to_string q) (omega arith) (to_string-AllDigits q) in
    let c = sym a ∙ ap (rsplit_once b':') h ∙ b in cc

addr_eq_refl : (a : SocketAddr) → addr_eq a a ≡ true
addr_eq_refl a = rw (bytes_eq_refl a.ip) (ground arith)

both : (x y : Bool) → (x && y) ≡ true → (x ≡ true) × (y ≡ true)
both true y h = (refl, h)
both false y h = absurd (cc)

addr_eq-eq : (a b : SocketAddr) → addr_eq a b ≡ true → a ≡ b
addr_eq-eq a b h =
    let (i, p) = both (bytes_eq a.ip b.ip) (a.port == b.port) h in
    let e : a.ip ≡ b.ip = (bytes_eq_iff a.ip b.ip).0 i in
    let f : a.port ≡ b.port = ground (arith, p) in λ k. record { ip = e k; port = f k }

module _ (net : Net) where
  -- A name, which is no IP address, that was resolved to an address.
  pub record Named (d : Bytes) (a : SocketAddr) (state : UdpResolveState) : Type 0 where
    pub is_name : net.parse_ip d ≡ none
    pub port : ℕ
    pub resolved : state.domain_to_ip (with_port d port) ≡ some a

  pub record Inv (state : UdpResolveState) : Type 0 where
    pub back : (a : SocketAddr) (d : Bytes) → state.ip_to_domain a ≡ some d → Named d a state
    pub forth :
        (d : Bytes) (p : ℕ) (a : SocketAddr)
        → net.parse_ip d ≡ none
        → state.domain_to_ip (with_port d p) ≡ some a
        → (d' : Bytes) × (state.ip_to_domain a ≡ some d')

  pub new-Inv : Inv new
  unfolding new
  new-Inv = record { back = λ a d e. absurd (cc); forth = λ d p a n e. absurd (cc) }

  insert-old :
      (k k' : Bytes) (a a' : SocketAddr) (m : Map SocketAddr)
      → m k ≡ none
      → m k' ≡ some a'
      → insert k a m k' ≡ some a'
  insert-old k k' a a' m n e = elim (Bool-cases (bytes_eq k' k)) [
    | inl b ↦
        let q : k' ≡ k = (bytes_eq_iff k' k).0 b in
        absurd (let f : none ≡ some a' = sym n ∙ ap m (sym q) ∙ e in cc)
    | inr b ↦ rw b e
  ]

  insert-new : (k : Bytes) (a : SocketAddr) (m : Map SocketAddr) → insert k a m k ≡ some a
  insert-new k a m = rw (bytes_eq_refl k) refl

  learn-Inv :
      (d : Bytes) (p : ℕ) (a : SocketAddr) (s : UdpResolveState) (o : Option Bytes)
      → net.parse_ip d ≡ o
      → s.domain_to_ip (with_port d p) ≡ none
      → Inv s
      → Inv (named net d a o (record s { domain_to_ip = insert (with_port d p) a s.domain_to_ip }))
  learn-Inv d p a s (some ip) o n i = record {
    back = λ x e h.
        let w = i.back x e h in
        record {
          is_name = w.is_name;
          port = w.port;
          resolved =
              insert-old (with_port d p) (with_port e w.port) a x s.domain_to_ip n w.resolved;
        };
    forth = λ e q x m h. elim (Bool-cases (bytes_eq (with_port e q) (with_port d p))) [
      | inl b ↦
          let k : e ≡ d =
            with_port-host e d q p ((bytes_eq_iff (with_port e q) (with_port d p)).0 b) in
          absurd (let f : none ≡ some ip = sym m ∙ ap net.parse_ip k ∙ o in cc)
      | inr b ↦ i.forth e q x m (rw b at h)
    ];
  }
  learn-Inv d p a s none o n i = record {
    back = λ x e h. elim (Bool-cases (addr_eq x a)) [
      | inl b ↦
          let xa = addr_eq-eq x a b in
          let q : some d ≡ some e = (rw b at h) in
          let de : d ≡ e = cc in
          record {
            is_name = ap net.parse_ip (sym de) ∙ o;
            port = p;
            resolved =
                ap (λ k. insert (with_port d p) a s.domain_to_ip (with_port k p)) (sym de)
                ∙ insert-new (with_port d p) a s.domain_to_ip
                ∙ ap some (sym xa);
          }
      | inr b ↦
          let w = i.back x e (rw b at h) in
          record {
            is_name = w.is_name;
            port = w.port;
            resolved =
                insert-old (with_port d p) (with_port e w.port) a x s.domain_to_ip n w.resolved;
          }
    ];
    forth = λ e q x m h. elim (Bool-cases (addr_eq x a)) [
      | inl b ↦ (d, rw b refl)
      | inr b ↦ elim (Bool-cases (bytes_eq (with_port e q) (with_port d p))) [
        | inl k ↦
            let f : some a ≡ some x = (rw k at h) in
            let ax : a ≡ x = cc in
            absurd
              (let g : true ≡ false = sym (addr_eq_refl a) ∙ ap (λ y. addr_eq y a) ax ∙ b in cc)
        | inr k ↦ let (d', at') = i.forth e q x m (rw k at h) in (d', rw b at')
      ]
    ];
  }

  resolved-Inv :
      (d : Bytes) (p : ℕ) (s : UdpResolveState) (o : Result SocketAddr)
      → s.domain_to_ip (with_port d p) ≡ none
      → Inv s
      → Inv (learned net d p o s).1
  resolved-Inv d p s (ok a) n i = learn-Inv d p a s (net.parse_ip d) refl n i
  resolved-Inv d p s (err k m) n i = i
  resolved-Inv d p s panics n i = i

  pub cached_or-Inv :
      (d : Bytes) (p : ℕ) (s : UdpResolveState) (o : Option SocketAddr)
      → s.domain_to_ip (with_port d p) ≡ o
      → Inv s
      → Inv (cached_or net d p o s).1
  cached_or-Inv d p s none e i = resolved-Inv d p s _ e i
  cached_or-Inv d p s (some a) e i = i

  pub after_writes-Inv :
      (ps : List UdpPacket) (s : UdpResolveState) → Inv s → Inv (after_writes net ps s)
  unfolding after_writes resolve_dst_addr
  after_writes-Inv [] s i = i
  after_writes-Inv (p ∷ ps) s i =
      after_writes-Inv ps (resolve_dst_addr net p.dst_addr p.dst_port s).1
        (cached_or-Inv p.dst_addr p.dst_port s _ refl i)

  -- What is in the cache stays.
  abbrev pub Keeps : Bytes → SocketAddr → UdpResolveState → Type 0
  Keeps k a s = s.domain_to_ip k ≡ some a

  named-domain :
      (d : Bytes) (a : SocketAddr) (o : Option Bytes) (s : UdpResolveState)
      → (named net d a o s).domain_to_ip ≡ s.domain_to_ip
  named-domain d a (some ip) s = refl
  named-domain d a none s = refl

  learned-Keeps :
      (k : Bytes) (a : SocketAddr) (d : Bytes) (p : ℕ) (s : UdpResolveState) (o : Result SocketAddr)
      → s.domain_to_ip (with_port d p) ≡ none
      → Keeps k a s
      → Keeps k a (learned net d p o s).1
  learned-Keeps k a d p s (ok b) n h =
      ap (λ m. m k) (named-domain d b (net.parse_ip d) _)
      ∙ insert-old (with_port d p) k b a s.domain_to_ip n h
  learned-Keeps k a d p s (err e m) n h = h
  learned-Keeps k a d p s panics n h = h

  cached_or-Keeps :
      (k : Bytes) (a : SocketAddr) (d : Bytes) (p : ℕ) (s : UdpResolveState) (o : Option SocketAddr)
      → s.domain_to_ip (with_port d p) ≡ o
      → Keeps k a s
      → Keeps k a (cached_or net d p o s).1
  cached_or-Keeps k a d p s none e h = learned-Keeps k a d p s _ e h
  cached_or-Keeps k a d p s (some b) e h = h

  pub after_writes-Keeps :
      (k : Bytes) (a : SocketAddr) (ps : List UdpPacket) (s : UdpResolveState)
      → Keeps k a s
      → Keeps k a (after_writes net ps s)
  unfolding after_writes resolve_dst_addr
  after_writes-Keeps k a [] s h = h
  after_writes-Keeps k a (p ∷ ps) s h =
      after_writes-Keeps k a ps (resolve_dst_addr net p.dst_addr p.dst_port s).1
        (cached_or-Keeps k a p.dst_addr p.dst_port s _ refl h)

  learned-ok :
      (d : Bytes) (p : ℕ) (a : SocketAddr) (s : UdpResolveState) (o : Result SocketAddr)
      → (learned net d p o s).0 ≡ ok a
      → Keeps (with_port d p) a (learned net d p o s).1
  learned-ok d p a s (ok b) e =
      let q : b ≡ a = cc in
      ap (λ m. m (with_port d p)) (named-domain d b (net.parse_ip d) _)
      ∙ insert-new (with_port d p) b s.domain_to_ip
      ∙ ap some q
  learned-ok d p a s (err k m) e = absurd (cc)
  learned-ok d p a s panics e = absurd (cc)

  pub cached_or-ok :
      (d : Bytes) (p : ℕ) (a : SocketAddr) (s : UdpResolveState) (o : Option SocketAddr)
      → s.domain_to_ip (with_port d p) ≡ o
      → (cached_or net d p o s).0 ≡ ok a
      → Keeps (with_port d p) a (cached_or net d p o s).1
  cached_or-ok d p a s none e h = learned-ok d p a s _ h
  cached_or-ok d p a s (some b) e h = let q : b ≡ a = cc in e ∙ ap some q
