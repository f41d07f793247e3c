-- ===== src/Examples/Demo/Confined.antt =====
-- On calls of any tools, in any order, through the guarded session of examples/demo.py: what happens to the
-- disk.
use mathlib.Core.Path.{subst}
use asphallea.Prelude.{
  In, ℕ, ◌+◌, ◌≡◌, ◌∙◌, refl, sym, ap, inl, inr, String, true, false, List, [], ◌∷◌, ◌++◌, Option,
  none, some, arith, ◌⊎◌, Option-cases, Bool-cases, ◌==◌, str_dec,
}
use asphallea.Prelude.Dict.{Dict, lookup}
use asphallea.Runtime.{Runtime}
use asphallea.Value.{Value}
use asphallea.Errors.{Result-cases, ok}
use asphallea.Audit.{AuditSink}
use asphallea.Policy.{Policy}
use asphallea.Policy.Queries.{args_for}
use asphallea.Engine.{within_any}
use asphallea.Engine.Counters.{check-policy}
use asphallea.Engine.Rules.{admitted}
use asphallea.Intercept.{
  Moment, Interceptor, decide, recorded, record_decision, call_of, no_keywords, texts_of,
}
use asphallea.Intercept.Governed.{Governs, decide-Governs}
use asphallea.Mcp.{
  Guard, call_guarded, call_guarded_allowed, call_guarded_denied, policy_tool_name, guard_decision,
}
use asphallea.Examples.Demo.{
  Attempt, Outcome, Disk, FilesystemServer, file_server, call_tool, serve, delete, path_of, replay,
  outcome_of, writes_path,
}
use asphallea.Engine.Boundary.{PathLaws}
use asphallea.Policy.Builder.Boundary.{LiesWithin, build-LiesWithin}
use asphallea.Examples.Demo.{Arena}
use asphallea.Examples.Demo.Blocked.{
  demo_builder, demo_policy, demo_guard, demo_args, build-demo_policy,
}

module _ (S : AuditSink) (rt : Runtime) where
  -- A decision leaves the policies of the interceptor and of its engine.
  decide-policies :
      (tool : String) (arguments : Dict Value) (now : Moment) (gate : Interceptor S)
      → ((decide S rt tool (some arguments) no_keywords now gate).1.policy ≡ gate.policy)
        × ((decide S rt tool (some arguments) no_keywords now gate).1.engine.policy
            ≡ gate.engine.policy)
  unfolding decide recorded record_decision
  decide-policies tool arguments now gate = ground (
    arith,
    check-policy rt (call_of rt gate.policy tool arguments no_keywords) now.clock gate.engine,
  )

other_tool : ("filesystem.delete" == "filesystem.read") ≡ false
unfolding str_dec
other_tool = refl

module _ (rt : Runtime) (disk : Disk) where
  -- A call leaves the files, or is a deletion that names a path.
  call_tool-files :
      (name : String) (arguments : Dict Value) (s : FilesystemServer rt disk)
      → ((call_tool rt disk name (some arguments) s).1.files ≡ s.files)
        ⊎ ((path : Value) × (name ≡ "filesystem.delete")
            × (lookup "path" arguments ≡ some path)
            × ((call_tool rt disk name (some arguments) s).1.files ≡ (disk.remove path s.files).1))
  unfolding call_tool serve delete path_of
  call_tool-files name arguments s = elim (Option-cases (lookup "path" arguments)) [
    | inl missing ↦ inl (ground arith)
    | inr (path, found) ↦ elim (Bool-cases (name == "filesystem.delete")) [
      | inr other ↦ inl (ground arith)
      | inl same ↦ inr (path, ground arith, found, ground (arith, other_tool))
    ]
  ]

-- What a guarded call of a tool leaves of the files, if the policy declares that `filesystem.delete` writes to
-- its `path`, and each removal of a value keeps `P` if all the texts in it pass the write rule.
module _ (S : AuditSink) (rt : Runtime) (disk : Disk) (P : disk.State → Type 0) (p : Policy)
    (declared : args_for p "filesystem.delete" ≡ writes_path)
    (removes : (path : Value) (files : disk.State)
      → ((text : String) → In text (texts_of rt path) → within_any rt p.write_paths text ≡ ok true)
      → P files
      → P (disk.remove path files).1) where
  -- The guard still governs by the policy, under the names of the server.
  abbrev Governed : Guard S → Type 0
  Governed g = (g.gate.policy ≡ p) × (g.gate.engine.policy ≡ p) × (g.namespace ≡ none)

  remove_governed :
      (arguments : Dict Value) (path : Value) (files : disk.State)
      → Governs rt p "filesystem.delete" arguments no_keywords
      → lookup "path" arguments ≡ some path
      → P files
      → P (disk.remove path files).1
  remove_governed arguments path files governs found h =
      removes path files
        (λ text member. governs.writes "path" text path (rw declared (inl refl)) found member) h

  call_tool_governed :
      (name : String) (arguments : Dict Value) (s : FilesystemServer rt disk)
      → Governs rt p name arguments no_keywords
      → P s.files
      → P (call_tool rt disk name (some arguments) s).1.files
  call_tool_governed name arguments s governs h = elim (call_tool-files rt disk name arguments s) [
    | inl same ↦ rw same h
    | inr (path, deletes, found, files) ↦
        rw files (remove_governed arguments path s.files (rw (sym deletes) governs) found h)
  ]

  call_guarded-Governed :
      (name : String) (arguments : Dict Value) (now : Moment) (g : Guard S)
      (s : FilesystemServer rt disk)
      → Governed g
      → P s.files
      → Governed (call_guarded S rt (file_server rt disk) name (some arguments) now g s).1
        × P (call_guarded S rt (file_server rt disk) name (some arguments) now g s).2.files
  unfolding policy_tool_name
  call_guarded-Governed name arguments now g s (own, engine_own, named) h =
      let server = file_server rt disk in
      let (kept, engine_kept) =
        decide-policies S rt (policy_tool_name name g.namespace) arguments now g.gate in
      let still : Governed
          (record g { gate = (guard_decision S rt server name (some arguments) now g).1 }) =
        (kept ∙ own, engine_kept ∙ engine_own, named) in
      elim (Bool-cases (admitted (guard_decision S rt server name (some arguments) now g).0)) [
        | inl allowed ↦
            let whole = call_guarded_allowed S rt server name (some arguments) now g s allowed in
            let governs =
              subst (λ q. Governs rt q name arguments no_keywords) own
                (subst
                  (λ n. Governs rt g.gate.policy (policy_tool_name name n) arguments no_keywords)
                  named
                  (decide-Governs S rt (policy_tool_name name g.namespace) (some arguments)
                    no_keywords now g.gate (own ∙ sym engine_own) allowed)) in
            (
              rw (ap (λ o. o.1) whole) still,
              rw (ap (λ o. o.2) whole) (call_tool_governed name arguments s governs h),
            )
        | inr denied ↦
            let (same, left) =
              call_guarded_denied S rt server name (some arguments) now g s denied in
            (rw same still, rw left h)
      ]

  replay_governed :
      (attempts : List Attempt) (now : ℕ → Moment) (i : ℕ) (outcomes : List Outcome) (g : Guard S)
      (s : FilesystemServer rt disk)
      → Governed g
      → P s.files
      → P (replay S rt (file_server rt disk) attempts now i outcomes g s).2.files
  unfolding replay
  replay_governed [] now i outcomes g s own h = h
  replay_governed ((name, arguments, intent) ∷ rest) now i outcomes g s own h =
      let r = call_guarded S rt (file_server rt disk) name (some arguments) (now i) g s in
      let (own', h') = call_guarded-Governed name arguments (now i) g s own h in
      elim (Result-cases (outcome_of name r.0)) [
        | inl (outcome, came) ↦
            rw (replay, came)
              (replay_governed rest now (i + 1) (outcomes ++ outcome ∷ []) r.1 r.2 own' h')
        | inr (x, raised) ↦ rw (replay, raised) h'
      ]

-- Whatever tools the agent calls through the guarded session of the demo, with whatever arguments, in any
-- number and order: a property of the disk that each removal keeps, where all the texts of what is removed lie
-- within the folder `out` of the workspace, holds of the disk at the end too. The texts are the path, or its
-- entries for a collection, and `str` of a value of another kind. `os.path` is assumed to keep what it documents.
pub replay_confined :
    (S : AuditSink) (rt : Runtime) (disk : Disk) (laws : PathLaws rt)
    (join : String → String → String) (a : Arena) (P : disk.State → Type 0)
    (attempts : List Attempt) (now : ℕ → Moment) (audit : Option S.State)
    (s : FilesystemServer rt disk) {read write : String}
    → rt.real_path a.workspace ≡ ok read
    → rt.real_path (join a.workspace "out") ≡ ok write
    → ((path : Value) (files : disk.State)
        → ((text : String)
            → In text (texts_of rt path)
            → LiesWithin rt laws (join a.workspace "out" ∷ []) text)
        → P files
        → P (disk.remove path files).1)
    → P s.files
    → P
        (replay S rt
          (file_server rt disk)
          attempts
          now
          0
          []
          (demo_guard S rt join a read write audit)
          s).2.files
replay_confined S rt disk laws join a P attempts now audit s {read} {write} is_read is_write removes
      h =
    replay_governed S rt disk P (demo_policy rt join a read write) (demo_args rt join a read write)
      (λ path files passes. removes path files λ text member.
        (build-LiesWithin rt laws (demo_builder join a) text
            (build-demo_policy rt join a read write is_read is_write)).0.0
          (passes text member))
      attempts now 0 [] (demo_guard S rt join a read write audit) s (refl, refl, refl) h
