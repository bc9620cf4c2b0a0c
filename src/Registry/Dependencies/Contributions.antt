-- ===== src/Registry/Dependencies/Contributions.antt =====
-- What a module contributes to the slots of its hosts.
use app_module_sdk.Base.{
  String, ◌≡◌, ◌&&◌, Option, none, some, List, [], ◌∷◌, ◌==◌, arith, eq_iff, if◌then◌else◌,
}
use app_module_sdk.Registry.Decls.{OutboundContribution}
use app_module_sdk.Registry.Dependencies.{same_slot, add_contribution}

pub contribution_at : String → String → List OutboundContribution → Option OutboundContribution
contribution_at host slot [] = none
contribution_at host slot (c ∷ cs) =
    if c.host == host && c.slot == slot then some c else contribution_at host slot cs

-- A contribution replaces the one for its host and slot, and leaves all others.
pub add_contribution_lem :
    (c : OutboundContribution) (cs : List OutboundContribution) (host slot : String)
    → contribution_at host slot (add_contribution c cs)
      ≡ (if c.host == host && c.slot == slot then some c else contribution_at host slot cs)
unfolding add_contribution same_slot contribution_at
add_contribution_lem c [] host slot = ground arith
add_contribution_lem c (d ∷ ds) host slot = ground (
  arith,
  add_contribution_lem c ds host slot,
  eq_iff d.host c.host,
  eq_iff d.slot c.slot,
  eq_iff d.host host,
  eq_iff d.slot slot,
  eq_iff c.host host,
  eq_iff c.slot slot,
)
