-- ===== src/Capability/Samples.antt =====
-- A parent's capabilities, a child's, and the theorems of the sibling modules applied to them.
use asynchronnous_agent_os.Prelude.{◌≡◌, refl, eq_iff, arith, true, false, [], ◌∷◌, none, some}
use asynchronnous_agent_os.Usage.Books.{CapabilityStatus}
use asynchronnous_agent_os.Capability.Rules.{
  Platform, unique, normalize, path_within, domain_matches,
}
use asynchronnous_agent_os.Capability.Freeze.{
  Capabilities, Desired, narrow_list, freeze, freeze_roots, freeze_domains, freeze_each, scopes_of,
}
use asynchronnous_agent_os.Capability.Authorize.{Grant, ToolCall, denial, may_use_credential}
use asynchronnous_agent_os.Capability.Refinement.{frozen_within_parent}
use asynchronnous_agent_os.Capability.Wildcards.{credential_expands}

abbrev plain : Platform
plain = record { lower = λ s. s; posix_normalize = λ s. s }

abbrev mother : Capabilities
mother = record {
  tools = "*" ∷ [];
  resource_pools = "io" ∷ "model" ∷ [];
  roots = "." ∷ [];
  operations = "read" ∷ "write" ∷ [];
  domains = "*.example.com" ∷ [];
  methods = "GET" ∷ [];
  accounts = ("mail", "alice" ∷ "bob" ∷ []) ∷ [];
  data_scopes = "agent:self" ∷ [];
  credential_refs = "mail-key" ∷ [];
}

abbrev wanted : Desired
wanted = record {
  tools = some ("read_file" ∷ []);
  resource_pools = some ("io" ∷ []);
  roots = some ("docs" ∷ []);
  operations = some ("read" ∷ []);
  domains = none;
  methods = none;
  accounts = some (("mail", "bob" ∷ []) ∷ []);
  data_scopes = none;
  credential_refs = some [];
}

abbrev daughter : Capabilities
daughter = record mother {
  tools = "read_file" ∷ [];
  resource_pools = "io" ∷ [];
  roots = "docs" ∷ [];
  operations = "read" ∷ [];
  accounts = ("mail", "bob" ∷ []) ∷ [];
  credential_refs = [];
}

abbrev grant : Grant
grant = record {
  agent_id = "main";
  tenant_id = "default";
  status = CapabilityStatus.active;
  expires_at = none;
  capabilities = mother;
}

abbrev reading : ToolCall
reading = record {
  name = "read_file";
  resource_pool = "io";
  session = some ("main", "default");
  file = some ("read", "docs/plan.md");
  network = none;
  account = none;
  credential_ref = none;
  data_scopes = "agent:self" ∷ [];
}

frozen_within_parent_example : denial plain grant reading ≡ none
unfolding freeze freeze_roots freeze_domains freeze_each scopes_of narrow_list unique path_within
    domain_matches denial normalize
frozen_within_parent_example =
    frozen_within_parent plain grant wanted daughter reading refl refl refl refl

credential_expands_example :
    (narrow_list ("*" ∷ []) (some ("mail-key" ∷ [])) ≡ some ("mail-key" ∷ []))
    × (may_use_credential (record mother { credential_refs = "mail-key" ∷ [] }) (some "mail-key")
        ≡ true)
    × (may_use_credential (record mother { credential_refs = "*" ∷ [] }) (some "mail-key") ≡ false)
credential_expands_example =
    credential_expands (record mother { credential_refs = "*" ∷ [] }) "mail-key" refl
      (λ e. ground (arith, (eq_iff "mail-key" "*").1 e))

-- A child of a parent with one host gets every host of the domain.
probe_expands :
    freeze_domains plain ("probe.example.com" ∷ []) (some ("*.example.com" ∷ []))
    ≡ some ("*.example.com" ∷ [])
unfolding freeze_domains domain_matches unique
probe_expands = refl

probed_host : domain_matches plain "*.example.com" "mail.example.com" ≡ true
unfolding domain_matches
probed_host = refl

refused_host : domain_matches plain "probe.example.com" "mail.example.com" ≡ false
unfolding domain_matches
refused_host = refl
