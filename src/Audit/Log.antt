-- ===== src/Audit/Log.antt =====
-- `AuditLog`, `StreamAuditLog` and `NullAuditLog` of asphallea/audit.py, as sinks. `json.dumps`, the
-- redactor and the encoding of the file are parameters.
use asphallea.Prelude.{String, ◌<>◌, Bool, true, false, List, [], ◌∷◌, ◌++◌, if◌then◌else◌}
use asphallea.Prelude.Dict.{Dict}
use asphallea.Runtime.{Runtime}
use asphallea.Value.{Value}
use asphallea.Errors.{Result, ok, raise, value_error, ◌>>=◌, ◌>>◌}
use asphallea.Audit.{AuditRecord, AuditSink}
use asphallea.Audit.Json.{to_dict}

-- A redactor: it takes a record's dict and returns a scrubbed one, or raises.
abbrev pub Redactor : Type 0
Redactor = Dict Value → Result (Dict Value)

-- An `AuditLog`: what stands in the file, by flushed writes, and whether it is closed.
pub record AuditLog : Type 0 where
  pub written : List String
  pub closed : Bool

-- `AuditLog(path)` opens the file for appending.
abbrev pub open_log : List String → AuditLog
open_log existing = record { written = existing; closed = false }

-- `AuditLog.close`
unfoldable pub close : AuditLog → AuditLog
close log = if log.closed then log else record log { closed = true }

-- `encodes` says whether the encoding of the file takes a line: a text with a lone surrogate, which
-- `ensure_ascii=False` leaves as it is, raises `UnicodeEncodeError` before anything is written.
module _ (rt : Runtime) (redactor : Redactor) (dumps : Dict Value → Result String)
    (encodes : String → Result (Unit {0})) where
  -- `json.dumps(redactor(record.to_dict())) + "\n"`
  unfoldable pub line_of : AuditRecord → Result String
  line_of r = do payload ← redactor (to_dict rt r); line ← dumps payload; ok (line <> "\n")

  -- `AuditLog.write`. A write to a closed file raises `ValueError`, and one that cannot be encoded
  -- raises too. A device that refuses the bytes is not modelled.
  unfoldable pub write : AuditRecord → AuditLog → Result AuditLog
  write r log = do
    line ← line_of r
    (if log.closed
        then raise (value_error "I/O operation on closed file.")
        else (do encodes line; ok (record log { written = log.written ++ line ∷ [] })))

  abbrev pub audit_log : AuditSink
  audit_log = record { State = AuditLog; write = write }

  -- `StreamAuditLog.write`
  unfoldable pub write_stream : AuditRecord → List String → Result (List String)
  unfolding line_of
  write_stream r stream = do line ← line_of r; encodes line; ok (stream ++ line ∷ [])

-- `NullAuditLog`
unfoldable pub write_null : AuditRecord → Unit {0} → Result (Unit {0})
write_null r s = ok s

-- What a program does with a log. A write that raises leaves the file as it was.
pub data Use : Type 0 where
  write_record : AuditRecord → Use
  close_log : Use

module _ (rt : Runtime) (redactor : Redactor) (dumps : Dict Value → Result String)
    (encodes : String → Result (Unit {0})) where
  abbrev or_kept : Result AuditLog → AuditLog → AuditLog
  or_kept (ok log) old = log
  or_kept (raise x) old = old

  -- The line of a record, if it is one that the file can hold.
  abbrev pub stored_line : AuditRecord → Result String
  stored_line r = do line ← line_of rt redactor dumps encodes r; encodes line; ok line

  unfoldable pub use_log : List Use → AuditLog → AuditLog
  use_log [] log = log
  use_log (write_record r ∷ rest) log =
      use_log rest (or_kept (write rt redactor dumps encodes r log) log)
  use_log (close_log ∷ rest) log = use_log rest (close log)

  abbrev line_or_none : Result String → List String
  line_or_none (ok line) = line ∷ []
  line_or_none (raise x) = []

  -- The lines of the records that are stored before the log is closed, in order.
  abbrev pub lines_before_close : List Use → List String
  lines_before_close [] = []
  lines_before_close (write_record r ∷ rest) =
      line_or_none (stored_line r) ++ lines_before_close rest
  lines_before_close (close_log ∷ rest) = []
