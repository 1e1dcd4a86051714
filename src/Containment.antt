-- ===== src/Containment.antt =====
-- arbiter/ingestion/containment.py: the networks that a local block may concern. Python's `ipaddress`
-- is a parameter; `none` is a ValueError.
pub mod Permits
use arbiter_ai.Base.{
  is_empty, ℕ, String, Bool, true, false, not, ◌&&◌, ◌||◌, Option, none, some, List, [], ◌∷◌, eqb,
  leb, if◌then◌else◌, any, keep, ◌>>=◌, ◌>>◌, require, ◌<>◌,
}
use arbiter_ai.Base.Text.{contains}

-- The functions and properties of `ipaddress` that the source calls, of addresses `A` and networks
-- `N`. `is_edge` tells the network's own address and its broadcast address.
pub record Addresses (A N : Type 0) : Type 0 where
  pub ip_address : String → Option A
  pub shown : A → String
  pub is_global : A → Bool
  pub is_loopback : A → Bool
  pub is_link_local : A → Bool
  pub is_multicast : A → Bool
  pub is_unspecified : A → Bool
  pub is_reserved : A → Bool
  pub is_mapped : A → Bool
  pub version : A → ℕ
  pub ip_network : String → Option N
  pub is_within : A → N → Bool
  pub prefixlen : N → ℕ
  pub is_edge : A → N → Bool

pub record Scope (N : Type 0) : Type 0 where
  pub allowed : List N
  pub protected : List N

module _ {A N : Type 0} (ip : Addresses A N) where
  unfoldable pub networks : List String → Option (List N)
  networks [] = some []
  networks (t ∷ ts) = do n ← ip.ip_network t; rest ← networks ts; some (n ∷ rest)

  -- `ContainmentScope(allowed, protected)`
  unfoldable pub containment_scope : List String → List String → Option (Scope N)
  containment_scope allowed protected = do
    open_networks ← networks allowed
    closed_networks ← networks protected
    require (not (is_empty open_networks || is_empty closed_networks))
    require (not (any (λ n. eqb (ip.prefixlen n) 0) open_networks))
    some (record { allowed = open_networks; protected = closed_networks })

  abbrev pub is_special : A → Bool
  is_special a =
      ip.is_loopback a
      || (ip.is_link_local a || (ip.is_multicast a || (ip.is_unspecified a || ip.is_reserved a)))

  abbrev pub is_host_in : A → N → Bool
  is_host_in a n = eqb (ip.version a) 6 || (leb 31 (ip.prefixlen n) || not (ip.is_edge a n))

  abbrev pub permits_address : Scope N → A → Bool
  permits_address scope a =
      if is_special a || (ip.is_mapped a || any (ip.is_within a) scope.protected)
      then false
      else any (is_host_in a) (keep (ip.is_within a) scope.allowed)

  -- `ContainmentScope.permits`
  unfoldable pub permits : Scope N → String → Bool
  permits scope target = elim (ip.ip_address target) [
    | none ↦ false
    | some a ↦ permits_address scope a
  ]

-- the network of one address: `target + ("/128" if ":" in target else "/32")`
abbrev pub single : String → String
single target = target <> (if contains target ":" then "/128" else "/32")

-- what a run computes with
unfoldable pub containment_run : Unit {0}
unfolding networks containment_scope permits contains require
containment_run = tt
