-- ===== src/Router/Hosts.antt =====
-- The hosts that `DefaultBaseRouter::route` of src/router/default_router.rs tries for a rule.
use rog.Prelude.{
  ErrorKind, String, ◌≡◌, refl, sym, ap, ◌∙◌, ◌⊎◌, ◌↔◌, inl, inr, true, Bool-cases, if◌then◌else◌,
  bytes_eq, bytes_eq_iff, List, [], ◌∷◌, ◌++◌, Result, ok, err, panics,
}
use rog.Prelude.Word.{Bytes}
use rog.Router.Crates.{Net}
use rog.Router.{RouteRule, DefaultBaseRouter, contains, push_new, with_ips, dns_or_empty, hosts_of}
use rog.Router.Route.{In, true-ne-false}

ok-inj' : {A : Type 0} → (a b : A) → ok a ≡ ok b → a ≡ b
ok-inj' a b h = cc

bad_err : {A : Type 0} → (k : ErrorKind) (m : String) (a : A) → err k m ≡ ok a → ⊥
bad_err k m a h = cc

bad_panic : {A : Type 0} → (a : A) → panics ≡ ok a → ⊥
bad_panic a h = cc

module _ (net : Net) (r : DefaultBaseRouter net) (addr : Bytes) where
  contains-In : (hosts : List Bytes) (h : Bytes) → contains net hosts h ≡ true → In h hosts
  contains-In [] h e = absurd (true-ne-false (sym e))
  contains-In (x ∷ xs) h e = elim (Bool-cases (bytes_eq x h)) [
    | inl is ↦ inl (sym ((bytes_eq_iff x h).0 is))
    | inr ne ↦ inr (contains-In xs h (rw ne at e))
  ]

  In-snoc : (hosts : List Bytes) (h x : Bytes) → In h (hosts ++ x ∷ []) ↔ (In h hosts ⊎ (h ≡ x))
  In-snoc [] h x = (
    (λ i. elim i [ inl e ↦ inr e | inr n ↦ elim n [ ] ]),
    (λ i. elim i [ inl n ↦ elim n [ ] | inr e ↦ inl e ]),
  )
  In-snoc (y ∷ ys) h x = (
    (λ i. elim i [
      | inl e ↦ inl (inl e)
      | inr j ↦ elim ((In-snoc ys h x).0 j) [ inl k ↦ inl (inr k) | inr e ↦ inr e ]
    ]),
    (λ i. elim i [
      | inl j ↦ elim j [ inl e ↦ inl e | inr k ↦ inr ((In-snoc ys h x).1 (inl k)) ]
      | inr e ↦ inr ((In-snoc ys h x).1 (inr e))
    ]),
  )

  push_one :
      (hosts : List Bytes) (h x : Bytes)
      → In h (if contains net hosts x then hosts else hosts ++ x ∷ []) ↔ (In h hosts ⊎ (h ≡ x))
  push_one hosts h x = elim (Bool-cases (contains net hosts x)) [
    | inl e ↦ rw e (inl, (λ i. elim i [ inl j ↦ j | inr is ↦ rw is (contains-In hosts x e) ]))
    | inr e ↦ rw e (In-snoc hosts h x)
  ]

  abbrev pub Resolved : Bytes → List net.Ip → Type 0
  Resolved h ips = (ip : net.Ip) × (In ip ips) × (h ≡ net.ip_to_string ip)

  push_new_iff :
      (hosts : List Bytes) (ips : List net.Ip) (h : Bytes)
      → In h (push_new net hosts ips) ↔ (In h hosts ⊎ Resolved h ips)
  unfolding push_new
  push_new_iff hosts [] h = (inl, (λ i. elim i [ inl j ↦ j | inr (ip, n, e) ↦ elim n [ ] ]))
  push_new_iff hosts (ip ∷ ips) h =
      let x = net.ip_to_string ip in
      let next = if contains net hosts x then hosts else hosts ++ x ∷ [] in
      let one = push_one hosts h x in
      let rest = push_new_iff next ips h in
      (
        (λ i. elim (rest.0 i) [
          | inl j ↦ elim (one.0 j) [ inl k ↦ inl k | inr e ↦ inr (ip, inl refl, e) ]
          | inr (ip', n, e) ↦ inr (ip', inr n, e)
        ]),
        (λ i. elim i [
          | inl j ↦ rest.1 (inl (one.1 (inl j)))
          | inr (ip', n, e) ↦ elim n [
            | inl is ↦ rest.1 (inl (one.1 (inr (e ∙ ap net.ip_to_string is))))
            | inr later ↦ rest.1 (inr (ip', later, e))
          ]
        ]),
      )

  -- The hosts that a rule tries are the destination's text and, where the rule resolves domains and
  -- the resolver answers, the texts of the resolved addresses; no others.
  pub hosts_of_iff :
      (rule : RouteRule net) (h : Bytes)
      → In h (hosts_of net r rule addr) ↔ (
          (h ≡ addr)
          ⊎ ((rule.domain_to_ip ≡ true)
              × ((ips : List net.Ip) × (r.resolve addr (dns_or_empty net rule.dns) ≡ ok ips)
                  × (Resolved h ips))))
  unfolding hosts_of
  hosts_of_iff rule h = elim (Bool-cases rule.domain_to_ip) [
    | inl e ↦ rw e (go (r.resolve addr (dns_or_empty net rule.dns)) refl)
    | inr e ↦ rw e (
      (λ i. elim i [ inl is ↦ inl is | inr n ↦ elim n [ ] ]),
      (λ i. elim i [ inl is ↦ inl is | inr (t, _) ↦ absurd (true-ne-false (sym t)) ]),
    )
  ]
    where
      go :
          (answer : Result (List net.Ip))
          → r.resolve addr (dns_or_empty net rule.dns) ≡ answer
          → In h (with_ips net (addr ∷ []) answer) ↔ (
              (h ≡ addr)
              ⊎ ((true ≡ true) × ((ips : List net.Ip) × (answer ≡ ok ips) × (Resolved h ips))))
      go (ok ips) a =
          let p = push_new_iff (addr ∷ []) ips h in
          (
            (λ i. elim (p.0 i) [
              | inl j ↦ elim j [ inl is ↦ inl is | inr n ↦ elim n [ ] ]
              | inr found ↦ inr (refl, (ips, refl, found))
            ]),
            (λ i. elim i [
              | inl is ↦ p.1 (inl (inl is))
              | inr (_, (ips', same, found)) ↦ p.1 (inr (rw (ok-inj' ips ips' same) found))
            ]),
          )
      go (err k m) a = (
        (λ i. elim i [ inl is ↦ inl is | inr n ↦ elim n [ ] ]),
        (λ i. elim i [
          | inl is ↦ inl is
          | inr (_, (ips', same, found)) ↦ absurd (bad_err k m ips' same)
        ]),
      )
      go panics a = (
        (λ i. elim i [ inl is ↦ inl is | inr n ↦ elim n [ ] ]),
        (λ i. elim i [
          | inl is ↦ inl is
          | inr (_, (ips', same, found)) ↦ absurd (bad_panic ips' same)
        ]),
      )
