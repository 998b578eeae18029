-- ===== src/Capability/Wildcards.antt =====
-- The wildcard in a list of credential references.
use asynchronnous_agent_os.Prelude.{
  ◌≡◌, ◌≢◌, refl, true, false, String, [], ◌∷◌, some, str_eq, eq_iff, arith, Bool-cases, inl, inr,
}
use asynchronnous_agent_os.Capability.Rules.{unique}
use asynchronnous_agent_os.Capability.Freeze.{Capabilities, narrow_list}
use asynchronnous_agent_os.Capability.Authorize.{may_use_credential}

-- Under a list of credentials that is the wildcard alone, a child may be frozen with any credential,
-- and may use it, while the parent may not.
pub credential_expands :
    (parent : Capabilities) (v : String)
    → parent.credential_refs ≡ "*" ∷ []
    → v ≢ "*"
    → (narrow_list parent.credential_refs (some (v ∷ [])) ≡ some (v ∷ []))
      × (may_use_credential (record parent { credential_refs = v ∷ [] }) (some v) ≡ true)
      × (may_use_credential parent (some v) ≡ false)
unfolding narrow_list unique
credential_expands parent v e ne = elim (Bool-cases (str_eq "*" v)) [
  | inl f ↦ let same : "*" ≡ v = (eq_iff "*" v).0 f in absurd (ground arith)
  | inr f ↦ (rw e (ground arith), ground (arith, (eq_iff v v).1 refl), rw e (ground arith))
]
