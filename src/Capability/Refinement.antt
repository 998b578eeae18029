-- ===== src/Capability/Refinement.antt =====
-- A frozen capability set refines the parent's: what it lets through, the parent's lets through.
use asynchronnous_agent_os.Prelude.{
  ◌≡◌, refl, true, false, String, Option, none, some, all, arith, >>=_some,
}
use asynchronnous_agent_os.Capability.Rules.{Platform, includes, list, allows, domain_matches}
use asynchronnous_agent_os.Capability.Freeze.{
  Capabilities, Desired, narrow_list, freeze_roots, freeze_domains, freeze_accounts, freeze,
}
use asynchronnous_agent_os.Capability.Authorize.{
  Grant, ToolCall, owns, may_operate, may_reach, may_use_method, may_contact, may_use_account,
  may_use_credential, denial,
}
use asynchronnous_agent_os.Capability.Lists.{includes-list, narrow_list-allows}
use asynchronnous_agent_os.Capability.Narrowing.{
  reach_narrows, contact_narrows, account_narrows, all_narrows,
}

-- The checks of a call, one by one.
record Passes (w : Platform) (g : Grant) (t : ToolCall) : Type 0 where
  tool : allows (list (some g.capabilities.tools)) t.name ≡ true
  pool : allows (list (some g.capabilities.resource_pools)) t.resource_pool ≡ true
  owner : owns g t.session ≡ true
  operation : may_operate g.capabilities t.file ≡ true
  path : may_reach w g.capabilities t.file ≡ true
  method : may_use_method g.capabilities t.network ≡ true
  host : may_contact w g.capabilities t.network ≡ true
  account : may_use_account g.capabilities t.account ≡ true
  credential : may_use_credential g.capabilities t.credential_ref ≡ true
  scopes : all (allows (list (some g.capabilities.data_scopes))) t.data_scopes ≡ true

denial-Passes : (w : Platform) (g : Grant) (t : ToolCall) → denial w g t ≡ none → Passes w g t
unfolding denial
denial-Passes w g t e = record {
  tool = ground arith;
  pool = ground arith;
  owner = ground arith;
  operation = ground arith;
  path = ground arith;
  method = ground arith;
  host = ground arith;
  account = ground arith;
  credential = ground arith;
  scopes = ground arith;
}

Passes-denial : (w : Platform) (g : Grant) (t : ToolCall) → Passes w g t → denial w g t ≡ none
unfolding denial
Passes-denial w g t p =
    rw
      (
        p.tool, p.pool, p.owner, p.operation, p.path, p.method, p.host, p.account, p.credential,
        p.scopes,
      )
      refl

-- The parts of a frozen set.
record Frozen (w : Platform) (p : Capabilities) (d : Desired) (c : Capabilities) : Type 0 where
  roots : freeze_roots w p.roots d.roots ≡ some c.roots
  domains : freeze_domains w p.domains d.domains ≡ some c.domains
  accounts : freeze_accounts p.accounts d.accounts ≡ some c.accounts
  tools : narrow_list p.tools d.tools ≡ some c.tools
  pools : narrow_list p.resource_pools d.resource_pools ≡ some c.resource_pools
  operations : narrow_list p.operations d.operations ≡ some c.operations
  methods : narrow_list p.methods d.methods ≡ some c.methods
  data_scopes : narrow_list p.data_scopes d.data_scopes ≡ some c.data_scopes
  credential_refs : narrow_list p.credential_refs d.credential_refs ≡ some c.credential_refs

freeze-Frozen :
    (w : Platform) (p : Capabilities) (d : Desired) (c : Capabilities)
    → freeze w p d ≡ some c
    → Frozen w p d c
unfolding freeze
freeze-Frozen w p d c e =
    let (roots, e1, r1) = >>=_some (freeze_roots w p.roots d.roots) _ c e in
    let (domains, e2, r2) = >>=_some (freeze_domains w p.domains d.domains) _ c r1 in
    let (accounts, e3, r3) = >>=_some (freeze_accounts p.accounts d.accounts) _ c r2 in
    let (tools, e4, r4) = >>=_some (narrow_list p.tools d.tools) _ c r3 in
    let (pools, e5, r5) = >>=_some (narrow_list p.resource_pools d.resource_pools) _ c r4 in
    let (operations, e6, r6) = >>=_some (narrow_list p.operations d.operations) _ c r5 in
    let (methods, e7, r7) = >>=_some (narrow_list p.methods d.methods) _ c r6 in
    let (scopes, e8, r8) = >>=_some (narrow_list p.data_scopes d.data_scopes) _ c r7 in
    let (refs, e9, r9) = >>=_some (narrow_list p.credential_refs d.credential_refs) _ c r8 in
    record {
      roots = ground arith;
      domains = ground arith;
      accounts = ground arith;
      tools = ground arith;
      pools = ground arith;
      operations = ground arith;
      methods = ground arith;
      data_scopes = ground arith;
      credential_refs = ground arith;
    }

module _ (w : Platform) (parent child : Capabilities) (d : Desired)
    (f : Frozen w parent d child) where
  operation_within :
      (x : Option (String × String)) → may_operate child x ≡ true → may_operate parent x ≡ true
  operation_within none h = refl
  operation_within (some (operation, path)) h =
      narrow_list-allows parent.operations d.operations child.operations operation f.operations h

  path_within_parent :
      (x : Option (String × String)) → may_reach w child x ≡ true → may_reach w parent x ≡ true
  path_within_parent none h = refl
  path_within_parent (some (operation, path)) h =
      reach_narrows w parent.roots d.roots child.roots path f.roots h

  method_within :
      (x : Option (String × String))
      → may_use_method child x ≡ true
      → may_use_method parent x ≡ true
  method_within none h = refl
  method_within (some (method, host)) h =
      narrow_list-allows parent.methods d.methods child.methods method f.methods h

  host_within :
      (x : Option (String × String))
      → d.domains ≡ none
      → may_contact w child x ≡ true
      → may_contact w parent x ≡ true
  host_within none e h = refl
  host_within (some (method, host)) e h =
      contact_narrows w parent.domains child.domains (λ rule. domain_matches w rule host)
        (rw e at (f.domains)) h

  account_within :
      (x : Option (String × String))
      → may_use_account child x ≡ true
      → may_use_account parent x ≡ true
  account_within none h = refl
  account_within (some (type, account)) h =
      account_narrows parent.accounts d.accounts child.accounts type account f.accounts h

  credential_within :
      (x : Option String)
      → includes "*" parent.credential_refs ≡ false
      → may_use_credential child x ≡ true
      → may_use_credential parent x ≡ true
  credential_within none star h = refl
  credential_within (some v) star h =
      let allowed =
        narrow_list-allows parent.credential_refs d.credential_refs child.credential_refs v
          f.credential_refs (ground arith) in
      ground (arith, includes-list "*" parent.credential_refs)

-- What a goal may do under capabilities that are frozen from its parent's, the parent with the same
-- owner may do: where the child inherits the network domains, and the parent's list of credentials
-- has no wildcard, a call of a tool that passes the child's checks passes the parent's.
pub frozen_within_parent :
    (w : Platform) (g : Grant) (d : Desired) (child : Capabilities) (t : ToolCall)
    → freeze w g.capabilities d ≡ some child
    → d.domains ≡ none
    → includes "*" g.capabilities.credential_refs ≡ false
    → denial w (record g { capabilities = child }) t ≡ none
    → denial w g t ≡ none
frozen_within_parent w g d child t e inherits star h =
    let f = freeze-Frozen w g.capabilities d child e in
    let p = denial-Passes w (record g { capabilities = child }) t h in
    Passes-denial w g t (record {
      tool = narrow_list-allows g.capabilities.tools d.tools child.tools t.name f.tools p.tool;
      pool =
          narrow_list-allows g.capabilities.resource_pools d.resource_pools child.resource_pools
            t.resource_pool f.pools p.pool;
      owner = p.owner;
      operation = operation_within w g.capabilities child d f t.file p.operation;
      path = path_within_parent w g.capabilities child d f t.file p.path;
      method = method_within w g.capabilities child d f t.network p.method;
      host = host_within w g.capabilities child d f t.network inherits p.host;
      account = account_within w g.capabilities child d f t.account p.account;
      credential = credential_within w g.capabilities child d f t.credential_ref star p.credential;
      scopes =
          all_narrows _ _ t.data_scopes
            (λ x.
              narrow_list-allows g.capabilities.data_scopes d.data_scopes child.data_scopes x
                f.data_scopes)
            p.scopes;
    })
