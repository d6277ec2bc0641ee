-- ===== src/Router/Route.antt =====
-- The rules of `DefaultBaseRouter::route` of src/router/default_router.rs.
use rog.Prelude.{
  ◌≡◌, ◌≢◌, refl, sym, ap, ◌∙◌, ◌⊎◌, inl, inr, Bool, true, false, Bool-cases, Option, none, some,
  List, [], ◌∷◌, ◌++◌,
}
use rog.Prelude.Word.{Bytes, codes}
use rog.Router.Crates.{Net}
use rog.Router.Exclude.{is_match}
use rog.Router.{RouteRule, DefaultBaseRouter, hosts_of, try_host, try_hosts, try_rules, route}

pub true-ne-false : true ≢ false
true-ne-false h = cc

abbrev pub In : {A : Type 0} → A → List A → Type 0
In a [] = ⊥
In a (x ∷ xs) = (a ≡ x) ⊎ In a xs

abbrev pub All : {A : Type 0} → (A → Type 0) → List A → Type 0
All P [] = Unit {0}
All P (x ∷ xs) = P x × All P xs

module _ (net : Net) (r : DefaultBaseRouter net) (addr : Bytes) where
  -- Some host of the destination is not excluded, and the rule's data matches it.
  abbrev pub Matches : RouteRule net → Type 0
  Matches rule =
      (data' : Bytes → Bool) × (r.data_map rule.name ≡ some data')
      × ((host : Bytes) × (In host (hosts_of net r rule addr))
          × (is_match net rule.exclude host ≡ false)
          × (data' host ≡ true))

  -- The rule's data is unknown, or each host is excluded or not matched.
  abbrev pub Misses : RouteRule net → Type 0
  Misses rule =
      (data' : Bytes → Bool) (host : Bytes)
      → r.data_map rule.name ≡ some data'
      → In host (hosts_of net r rule addr)
      → is_match net rule.exclude host ≡ false
      → data' host ≡ false

  try_host-true :
      (o : Option (Bytes → Bool)) (rule : RouteRule net) (host : Bytes)
      → try_host net o rule host ≡ true
      → (data' : Bytes → Bool) × (o ≡ some data')
        × (is_match net rule.exclude host ≡ false)
        × (data' host ≡ true)
  unfolding try_host
  try_host-true none rule host h = cc
  try_host-true (some data') rule host h = elim (Bool-cases (is_match net rule.exclude host)) [
    | inl e ↦ absurd (true-ne-false (sym h ∙ rw e refl))
    | inr e ↦ (data', refl, e, rw e at h)
  ]

  try_host-false :
      (o : Option (Bytes → Bool)) (rule : RouteRule net) (host : Bytes) (data' : Bytes → Bool)
      → try_host net o rule host ≡ false
      → o ≡ some data'
      → is_match net rule.exclude host ≡ false
      → data' host ≡ false
  unfolding try_host
  try_host-false o rule host data' h e x = rw (e, x) at h

  try_hosts-true :
      (rule : RouteRule net) (hosts : List Bytes)
      → try_hosts net r rule hosts ≡ true
      → (host : Bytes) × (In host hosts) × (try_host net (r.data_map rule.name) rule host ≡ true)
  unfolding try_hosts
  try_hosts-true rule [] h = absurd (true-ne-false (sym h))
  try_hosts-true rule (x ∷ xs) h = elim (Bool-cases (try_host net (r.data_map rule.name) rule x)) [
    | inl e ↦ (x, inl refl, e)
    | inr e ↦ let (y, i, e') = try_hosts-true rule xs (rw e at h) in (y, inr i, e')
  ]

  try_hosts-false :
      (rule : RouteRule net) (hosts : List Bytes) (host : Bytes)
      → try_hosts net r rule hosts ≡ false
      → In host hosts
      → try_host net (r.data_map rule.name) rule host ≡ false
  unfolding try_hosts
  try_hosts-false rule [] host h i = elim i [ ]
  try_hosts-false rule (x ∷ xs) host h i =
      elim (Bool-cases (try_host net (r.data_map rule.name) rule x)) [
        | inl e ↦ absurd (true-ne-false (rw e at h))
        | inr e ↦ elim i [
          | inl is ↦ rw is e
          | inr later ↦ try_hosts-false rule xs host (rw e at h) later
        ]
      ]

  -- What `route` gives: the first rule that matches, or the default.
  abbrev pub Routed : List (RouteRule net) → Bytes × Bytes → Type 0
  Routed rules result =
      ((before : List (RouteRule net)) × (rule : RouteRule net) × (after : List (RouteRule net))
        × (rules ≡ before ++ rule ∷ after)
        × (All Misses before)
        × (Matches rule)
        × (result ≡ (rule.name, rule.select)))
      ⊎ ((All Misses rules) × (result ≡ (codes "default", r.default_tag)))

  rule_cases :
      (rule : RouteRule net)
      → ((Matches rule) × (try_hosts net r rule (hosts_of net r rule addr) ≡ true))
        ⊎ ((Misses rule) × (try_hosts net r rule (hosts_of net r rule addr) ≡ false))
  rule_cases rule = elim (Bool-cases (try_hosts net r rule (hosts_of net r rule addr))) [
    | inl e ↦
        let (host, i, e₁) = try_hosts-true rule (hosts_of net r rule addr) e in
        let (data', known, x, m) = try_host-true (r.data_map rule.name) rule host e₁ in
        inl ((data', known, (host, i, x, m)), e)
    | inr e ↦ inr (
      (λ data' host known i x.
          try_host-false (r.data_map rule.name) rule host data'
            (try_hosts-false rule (hosts_of net r rule addr) host e i) known x),
      e,
    )
  ]

  try_rules-Routed : (rules : List (RouteRule net)) → Routed rules (try_rules net r rules addr)
  unfolding try_rules
  try_rules-Routed [] = inr (tt, refl)
  try_rules-Routed (rule ∷ rules) = elim (rule_cases rule) [
    | inl (m, e) ↦ inl ([], rule, rules, refl, tt, m, rw e refl)
    | inr (m, e) ↦ elim (try_rules-Routed rules) [
      | inl (before, found, after, is, ms, hit, result) ↦
          inl (rule ∷ before, found, after, ap (◌∷◌ rule) is, (m, ms), hit, rw e result)
      | inr (ms, result) ↦ inr ((m, ms), rw e result)
    ]
  ]

  -- `route` goes by the rules in order: it gives the name and the connector of the first rule whose
  -- data is known and matches some host of the destination that the rule does not exclude; if no
  -- rule does, it gives "default" and the default connector.
  pub route_first : Routed r.rules (route net r addr)
  unfolding route
  route_first = try_rules-Routed r.rules
