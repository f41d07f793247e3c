-- ===== src/Sandbox/Folder.antt =====
-- On `run` of asphallea/sandbox.py: what may be done with the temporary folder that holds the policy.
pub mod Ordered
use asphallea.Prelude.{List, String, [], ◌∷◌, ◌++◌, true, inl, inr, refl, arith, some, ◌≡◌, ◌⊎◌}
use asphallea.Sandbox.Probe.{Host, core_binary, probe_argv}
use asphallea.Runtime.{Runtime}
use asphallea.Errors.{ok}
use asphallea.Policy.{Policy}
use asphallea.Policy.CoreJson.{core_json}
use asphallea.Sandbox.World.{
  Effect, warned, printed, made_folder, removed_folder, wrote_policy, launched, killed_group,
  killed_process,
}
use asphallea.Sandbox.Processes.{Processes, kill_tree}
use asphallea.Sandbox.Contained.{Options, contained_argv}
use asphallea.Sandbox.Keeps.{Grows}

-- There is no folder, there is one, or there is one with the policy in it.
pub data Phase : Type 0 where
  outside made written : Phase

module _ (rt : Runtime) (host : Host) (ps : Processes) (command : List String) (o : Options)
    (p : Policy) where
  -- What may be started without a folder.
  abbrev pub IsOutside : List String → Type 0
  IsOutside argv =
      ((o.allow_degraded ≡ true) × (argv ≡ command))
      ⊎ ((binary : String) × (core_binary host ≡ some binary) × (argv ≡ probe_argv binary))

  -- What is done, in order, from one phase to another. In the folder the policy file is written with what the
  -- core is to know of the policy; with that file there, the core is started under it; without a folder, only
  -- the probe of the core binary that is found, or the bare command, where the caller allows that.
  abbrev pub Leads : Phase → List Effect → Phase → Type 0
  Leads a [] b = a ≡ b
  Leads outside (made_folder ∷ es) b = Leads made es b
  Leads made (wrote_policy path core ∷ es) b =
      (path ≡ ps.policy_path) × (core_json rt p ≡ ok core) × Leads written es b
  Leads written (launched argv ∷ es) b =
      ((binary : String) × (argv ≡ contained_argv ps command binary)) × Leads written es b
  Leads outside (launched argv ∷ es) b = IsOutside argv × Leads outside es b
  Leads made (removed_folder ∷ es) b = Leads outside es b
  Leads written (removed_folder ∷ es) b = Leads outside es b
  Leads a (killed_group ∷ es) b = Leads a es b
  Leads a (killed_process ∷ es) b = Leads a es b
  Leads a (warned message ∷ es) b = Leads a es b
  Leads a (printed message ∷ es) b = Leads a es b
  Leads a (e ∷ es) b = ⊥

  pub Leads-append :
      (a b c : Phase) (es fs : List Effect) → Leads a es b → Leads b fs c → Leads a (es ++ fs) c
  Leads-append a b c [] fs same h = rw same h
  Leads-append outside b c (made_folder ∷ es) fs h k = Leads-append made b c es fs h k
  Leads-append outside b c (launched argv ∷ es) fs (may, h) k =
      (may, Leads-append outside b c es fs h k)
  Leads-append made b c (wrote_policy path core ∷ es) fs (same, is_core, h) k =
      (same, is_core, Leads-append written b c es fs h k)
  Leads-append written b c (launched argv ∷ es) fs (core, h) k =
      (core, Leads-append written b c es fs h k)
  Leads-append made b c (removed_folder ∷ es) fs h k = Leads-append outside b c es fs h k
  Leads-append written b c (removed_folder ∷ es) fs h k = Leads-append outside b c es fs h k
  Leads-append a b c (killed_group ∷ es) fs h k = Leads-append a b c es fs h k
  Leads-append a b c (killed_process ∷ es) fs h k = Leads-append a b c es fs h k
  Leads-append a b c (warned message ∷ es) fs h k = Leads-append a b c es fs h k
  Leads-append a b c (printed message ∷ es) fs h k = Leads-append a b c es fs h k
  Leads-append a b c (e ∷ es) fs h k = absurd h

  -- From no folder to no folder.
  abbrev pub Orderly : List Effect → Type 0
  Orderly es = Leads outside es outside

  pub Orderly-Grows : Grows Orderly Orderly
  Orderly-Grows = record { append = Leads-append outside outside outside }

  -- What is done in the folder that holds the policy.
  pub written-Grows : Grows (λ es. Leads outside es written) (λ es. Leads written es written)
  written-Grows = record { append = Leads-append outside written written }

  pub Leads-kill_tree : Leads outside (kill_tree ps) outside × Leads written (kill_tree ps) written
  unfolding kill_tree
  Leads-kill_tree = ground arith

  -- In the folder.
  abbrev pub Inside : List Effect → Type 0
  Inside es = Leads outside es made ⊎ Leads outside es written

  pub folder_removed : (es : List Effect) → Inside es → Orderly (es ++ removed_folder ∷ [])
  folder_removed es (inl h) = Leads-append outside made outside es (removed_folder ∷ []) h refl
  folder_removed es (inr h) = Leads-append outside written outside es (removed_folder ∷ []) h refl
