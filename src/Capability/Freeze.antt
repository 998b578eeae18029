-- ===== src/Capability/Freeze.antt =====
-- src/kernel/capability-kernel.js: narrowList and freeze. The constraints and the expiry of a
-- contract are left out.
use asynchronnous_agent_os.Prelude.{
  String, List, [], ◌∷◌, Option, none, some, str_eq, if◌then◌else◌, any, all, ◌>>=◌,
}
use asynchronnous_agent_os.Capability.Rules.{
  Platform, list, allows, domain_matches, probe, path_within,
}

abbrev pub Accounts : Type 0
Accounts = List (String × List String)

pub record Capabilities : Type 0 where
  pub tools : List String
  pub resource_pools : List String
  pub roots : List String
  pub operations : List String
  pub domains : List String
  pub methods : List String
  pub accounts : Accounts
  pub data_scopes : List String
  pub credential_refs : List String

-- What a child asks for: each property may be missing.
pub record Desired : Type 0 where
  pub tools : Option (List String)
  pub resource_pools : Option (List String)
  pub roots : Option (List String)
  pub operations : Option (List String)
  pub domains : Option (List String)
  pub methods : Option (List String)
  pub accounts : Option Accounts
  pub data_scopes : Option (List String)
  pub credential_refs : Option (List String)

unfoldable pub narrow_list : List String → Option (List String) → Option (List String)
narrow_list parent none = some (list (some parent))
narrow_list parent (some requested) =
    let base = list (some parent) in
    let desired = list (some requested) in if all (allows base) desired then some desired else none

unfoldable pub freeze_roots : Platform → List String → Option (List String) → Option (List String)
freeze_roots w parent requested =
    let roots : List String = elim requested [
      | none ↦ list (some parent)
      | some r ↦ list (some r)
    ] in
    if all (λ root. any (λ allowed. path_within w allowed root) (list (some parent))) roots
    then some roots
    else none

unfoldable pub freeze_domains : Platform → List String → Option (List String) → Option (List String)
freeze_domains w parent requested =
    let domains : List String = elim requested [
      | none ↦ list (some parent)
      | some r ↦ list (some r)
    ] in
    if all (λ d. any (λ rule. domain_matches w rule (probe d)) (list (some parent))) domains
    then some domains
    else none

unfoldable pub scopes_of : String → Accounts → Option (List String)
scopes_of type [] = none
scopes_of type ((t, scopes) ∷ rest) = if str_eq t type then some scopes else scopes_of type rest

unfoldable pub freeze_each : Accounts → Accounts → Option Accounts
freeze_each parent [] = some []
freeze_each parent ((type, requested) ∷ rest) = do
  scopes ← scopes_of type parent
  narrowed ← narrow_list scopes (some requested)
  later ← freeze_each parent rest
  some ((type, narrowed) ∷ later)

abbrev pub freeze_accounts : Accounts → Option Accounts → Option Accounts
freeze_accounts parent none = some parent
freeze_accounts parent (some desired) = freeze_each parent desired

-- `none` where the code throws: the child would expand what the parent may do.
unfoldable pub freeze : Platform → Capabilities → Desired → Option Capabilities
freeze w parent d = do
  roots ← freeze_roots w parent.roots d.roots
  domains ← freeze_domains w parent.domains d.domains
  accounts ← freeze_accounts parent.accounts d.accounts
  tools ← narrow_list parent.tools d.tools
  pools ← narrow_list parent.resource_pools d.resource_pools
  operations ← narrow_list parent.operations d.operations
  methods ← narrow_list parent.methods d.methods
  data_scopes ← narrow_list parent.data_scopes d.data_scopes
  credential_refs ← narrow_list parent.credential_refs d.credential_refs
  some (record {
    tools = tools;
    resource_pools = pools;
    roots = roots;
    operations = operations;
    domains = domains;
    methods = methods;
    accounts = accounts;
    data_scopes = data_scopes;
    credential_refs = credential_refs;
  })
