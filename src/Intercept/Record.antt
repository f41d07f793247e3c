-- ===== src/Intercept/Record.antt =====
-- On `decide` and `enforce` of asphallea/intercept.py: decisions and the audit trail.
use asphallea.Prelude.{
  [], Bool-cases, Option-cases, Option, String, none, refl, some, if◌then◌else◌, ◌≡◌, arith, inl,
  inr,
}
use asphallea.Intercept.{
  raise_if_denied, Interceptor, Keywords, Moment, or_no_arguments, record_of, call_of, decide,
  enforce, recorded, record_decision, write_to,
}
use asphallea.Audit.{AuditRecord, AuditSink}
use asphallea.Engine.{Engine, check}
use asphallea.Decision.{Decision}
use asphallea.Prelude.Dict.{Dict}
use asphallea.Errors.{Exception, Result, ok, policy_violation, raise, Result-cases}
use asphallea.Runtime.{Runtime}
use asphallea.Value.{Value}

module _ (S : AuditSink) (rt : Runtime) (tool : String) (arguments : Option (Dict Value))
    (kw : Keywords) (now : Moment) (gate : Interceptor S) where
  -- The record that a decision of this call has to leave.
  abbrev pub expected_record : Decision → AuditRecord
  expected_record d = record {
    tool = tool;
    decision = if d.allowed then "allow" else "deny";
    reason = d.reason;
    rule = d.rule;
    tier = "policy";
    args = [];
    kwargs = elim arguments [ none ↦ [] | some named ↦ named ];
    policy = some gate.policy.name;
    timestamp = now.timestamp;
    detail = none;
  }

  -- It is the record that is written.
  record_of-expected :
      (d : Decision)
      → record_of S gate.policy tool d (or_no_arguments arguments) "policy" none none now
        ≡ expected_record d
  unfolding record_of
  record_of-expected d = ground (arith, Bool-cases d.allowed, Option-cases arguments)

  abbrev pub engine_answer : Result Decision × Engine
  engine_answer =
      check rt (call_of rt gate.policy tool (or_no_arguments arguments) kw) now.clock gate.engine

  -- A decision that `decide` returns is the engine's, and it has been written to the sink, if there is
  -- one, as exactly one record: of the tool, with "allow" or "deny", the rule and the reason of the decision,
  -- the tier "policy", the given arguments by name, the name of the policy and the time.
  pub decide-recorded :
      {d : Decision} {sink : S.State}
      → gate.audit ≡ some sink
      → (decide S rt tool arguments kw now gate).0 ≡ ok d
      → (engine_answer.0 ≡ ok d)
        × ((sink' : S.State) × (S.write (expected_record d) sink ≡ ok sink')
            × ((decide S rt tool arguments kw now gate).1.audit ≡ some sink'))
  unfolding decide recorded record_decision write_to
  decide-recorded {d} {sink} has h = elim (Result-cases engine_answer.0) [
    | inr (x, raised) ↦ absurd (ground arith)
    | inl (d', answered) ↦ elim (Result-cases (S.write (expected_record d') sink)) [
      | inr (x, failed) ↦ absurd (ground (arith, record_of-expected d'))
      | inl (sink', wrote) ↦ (
        ground (arith, record_of-expected d'),
        (sink', ground (arith, record_of-expected d'), ground (arith, record_of-expected d')),
      )
    ]
  ]

  -- If the sink raises, so does `decide`: the caller gets no decision to act on.
  decide_unrecorded :
      {d : Decision} {sink : S.State} {x : Exception}
      → gate.audit ≡ some sink
      → engine_answer.0 ≡ ok d
      → S.write (expected_record d) sink ≡ raise x
      → (decide S rt tool arguments kw now gate).0 ≡ raise x
  unfolding decide recorded record_decision write_to
  decide_unrecorded {d} has h fails = ground (arith, record_of-expected d)

  -- For a decision that `decide` makes, `enforce` leaves the same engine and trail, returns it if it
  -- allows, and raises `PolicyViolation` with the decision and the tool if it denies.
  enforce_lem :
      {d : Decision}
      → (decide S rt tool arguments kw now gate).0 ≡ ok d
      → ((enforce S rt tool arguments kw now gate).1 ≡ (decide S rt tool arguments kw now gate).1)
        × ((enforce S rt tool arguments kw now gate).0
            ≡ (if d.allowed then ok d else raise (policy_violation d tool)))
  unfolding enforce raise_if_denied
  enforce_lem h = (refl, ground arith)
