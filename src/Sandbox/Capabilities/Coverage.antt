-- ===== src/Sandbox/Capabilities/Coverage.antt =====
-- On `covers` and `shortfall` of asphallea/sandbox.py.
use asphallea.Prelude.{Bool, [], arith, false, true, ◌≡◌, ◌↔◌, ◌⊎◌}
use asphallea.Sandbox.Capabilities.{Capabilities, can_contain, covers, missing_parts, is_some}

-- A backend covers what a policy requires just if it can contain at all and no required dimension is
-- missing; and what it covers it really has.
covers_iff :
    (c : Capabilities) (filesystem network : Bool)
    → ((covers c filesystem network ≡ true)
        ↔ ((can_contain c ≡ true) × (missing_parts c filesystem network ≡ [])))
      × ((covers c filesystem network ≡ true) ↔ (
          (is_some c.core_binary ≡ true)
          × ((c.filesystem_sandbox ≡ true) ⊎ (c.resource_limits ≡ true) ⊎ (c.process_kill ≡ true))
          × ((filesystem ≡ false) ⊎ (c.filesystem_sandbox ≡ true))
          × ((network ≡ false) ⊎ (c.network_sandbox ≡ true))))
unfolding covers missing_parts
covers_iff c filesystem network = ground arith
