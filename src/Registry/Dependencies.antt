-- ===== src/Registry/Dependencies.antt =====
-- `AddDependency` and `AddOutboundContribution` of internal/registry/registry.go, on the lists that
-- they update.
pub mod Laws
pub mod Keys
pub mod Contributions
use app_module_sdk.Base.{String, Bool, true, false, ◌&&◌, not, List, [], ◌∷◌, ◌==◌, if◌then◌else◌}
use app_module_sdk.Registry.Decls.{Dependency, OutboundContribution}
use app_module_sdk.Registry.Merge.{merge_strings}

-- A declaration `dep` of a module that has the entry `d`: the new entry, and whether it was upgraded.
unfoldable pub redeclare : Dependency → Dependency → Dependency × Bool
redeclare dep d =
    let merged : Dependency = record d {
      tables = merge_strings d.tables dep.tables;
      events = merge_strings d.events dep.events;
    } in
    if d.optional && not dep.optional
    then (record merged { optional = false; version = dep.version }, true)
    else (merged, false)

unfoldable pub add_dependency : Dependency → List Dependency → List Dependency × Bool
unfolding redeclare
add_dependency dep [] = (dep ∷ [], true)
add_dependency dep (d ∷ ds) =
    let rest = add_dependency dep ds in
    let entry = redeclare dep d in
    if d.id == dep.id then (entry.0 ∷ ds, entry.1) else (d ∷ rest.0, rest.1)

unfoldable pub same_slot : OutboundContribution → OutboundContribution → Bool
same_slot c d = d.host == c.host && d.slot == c.slot

unfoldable pub add_contribution :
    OutboundContribution → List OutboundContribution → List OutboundContribution
unfolding same_slot
add_contribution c [] = c ∷ []
add_contribution c (d ∷ ds) =
    let rest = add_contribution c ds in
    if same_slot c d
    then record d { payload = c.payload; constraint = c.constraint } ∷ ds
    else d ∷ rest
