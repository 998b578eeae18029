-- ===== src/Capability/Authorize.antt =====
-- src/kernel/capability-kernel.js: authorizeTool and canExposeTool, without the bindings of
-- arguments to constraints.
use asynchronnous_agent_os.Prelude.{
  ℕ, Bool, true, false, ◌&&◌, not, String, List, Option, none, some, str_eq, if◌then◌else◌, any,
  all,
}
use asynchronnous_agent_os.Usage.Books.{CapabilityStatus, expired}
use asynchronnous_agent_os.Usage.Quota.{is_active, is_over}
use asynchronnous_agent_os.Capability.Rules.{
  Platform, list, allows, includes, domain_matches, path_within,
}
use asynchronnous_agent_os.Capability.Freeze.{Capabilities, scopes_of}

-- The columns of the goal's contract.
pub record Grant : Type 0 where
  pub agent_id : String
  pub tenant_id : String
  pub status : CapabilityStatus
  pub expires_at : Option ℕ
  pub capabilities : Capabilities

-- A call of a tool: what its definition says that it needs, for the arguments of the call.
pub record ToolCall : Type 0 where
  pub name : String
  pub resource_pool : String
  -- The agent and the tenant of the session.
  pub session : Option (String × String)
  -- An operation on a path.
  pub file : Option (String × String)
  -- The method, in upper case, and the host of the URL.
  pub network : Option (String × String)
  -- The type of an account, and the account.
  pub account : Option (String × String)
  pub credential_ref : Option String
  pub data_scopes : List String

pub data Denial : Type 0 where
  inactive capability_expired tool_denied pool_denied wrong_owner : Denial
  operation_denied path_denied method_denied domain_denied account_denied : Denial
  credential_denied data_scope_denied : Denial

pub data Verdict : Type 0 where
  authorized : Verdict
  missing_contract : Verdict
  denied : Denial → Verdict

abbrev pub owns : Grant → Option (String × String) → Bool
owns g none = true
owns g (some (agent, tenant)) = str_eq agent g.agent_id && str_eq tenant g.tenant_id

abbrev pub may_operate : Capabilities → Option (String × String) → Bool
may_operate c none = true
may_operate c (some (operation, path)) = allows (list (some c.operations)) operation

abbrev pub may_reach : Platform → Capabilities → Option (String × String) → Bool
may_reach w c none = true
may_reach w c (some (operation, path)) = any (λ root. path_within w root path) (list (some c.roots))

abbrev pub may_use_method : Capabilities → Option (String × String) → Bool
may_use_method c none = true
may_use_method c (some (method, host)) = allows (list (some c.methods)) method

abbrev pub may_contact : Platform → Capabilities → Option (String × String) → Bool
may_contact w c none = true
may_contact w c (some (method, host)) =
    any (λ rule. domain_matches w rule host) (list (some c.domains))

abbrev pub may_use_account : Capabilities → Option (String × String) → Bool
may_use_account c none = true
may_use_account c (some (type, account)) = allows (list (scopes_of type c.accounts)) account

abbrev pub may_use_credential : Capabilities → Option String → Bool
may_use_credential c none = true
may_use_credential c (some reference) = includes reference (list (some c.credential_refs))

-- The first check of the capabilities that fails.
unfoldable pub denial : Platform → Grant → ToolCall → Option Denial
denial w g t =
    let c = g.capabilities in
    if not (allows (list (some c.tools)) t.name)
    then some tool_denied
    else if not (allows (list (some c.resource_pools)) t.resource_pool)
    then some pool_denied
    else if not (owns g t.session)
    then some wrong_owner
    else if not (may_operate c t.file)
    then some operation_denied
    else if not (may_reach w c t.file)
    then some path_denied
    else if not (may_use_method c t.network)
    then some method_denied
    else if not (may_contact w c t.network)
    then some domain_denied
    else if not (may_use_account c t.account)
    then some account_denied
    else if not (may_use_credential c t.credential_ref)
    then some credential_denied
    else if not (all (allows (list (some c.data_scopes))) t.data_scopes)
    then some data_scope_denied
    else none

-- A contract that is past its expiry is marked as expired.
unfoldable pub authorize_tool : Platform → Option Grant → ToolCall → ℕ → Option Grant × Verdict
authorize_tool w none t now = (none, missing_contract)
authorize_tool w (some g) t now =
    if not (is_active g.status)
    then (some g, denied inactive)
    else if is_over g.expires_at now
    then (some (record g { status = expired }), denied capability_expired)
    else (some g, elim (denial w g t) [ none ↦ authorized | some d ↦ denied d ])

unfoldable pub can_expose_tool : Option Grant → ToolCall → ℕ → Bool
can_expose_tool none t now = false
can_expose_tool (some g) t now =
    is_active g.status
    && (not (is_over g.expires_at now)
        && (allows (list (some g.capabilities.tools)) t.name
            && allows (list (some g.capabilities.resource_pools)) t.resource_pool))
