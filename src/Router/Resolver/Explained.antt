-- ===== src/Router/Resolver/Explained.antt =====
-- src/router/resolver.rs: where the answers from the cache come from, under any overlap of the calls.
use rog.Prelude.{◌⊎◌, ◌++◌, ◌≡◌, ◌∷◌}
use rog.Prelude.Word.{Bytes}
use rog.Router.Resolver.{Resolution}

module _ (Ip : Type 0) where
  -- A DNS setting is what stands after some dash of another one.
  abbrev pub Behind : Bytes → Bytes → Type 0
  Behind long short = (front : Bytes) × (long ≡ front ++ b'-' ∷ short)

  -- Two calls for one address with one DNS setting, if neither setting stands behind a dash of the other.
  abbrev pub Alike : Resolution Ip → Resolution Ip → Type 0
  Alike r r' =
      ((r.addr ≡ r'.addr) × (r.dns_config ≡ r'.dns_config))
      ⊎ (Behind r.dns_config r'.dns_config ⊎ Behind r'.dns_config r.dns_config)
