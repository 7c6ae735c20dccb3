-- ===== src/Audit/Writes.antt =====
-- What logging an event (src/audit/audit_logger.py) writes, on every destination.
use tacktcix.Prelude.{◌≡◌, ◌≢◌, none, false, ◌⊎◌, String, false, some, List, [], ◌∷◌, ◌++◌}
use tacktcix.Prelude.Outcome.{Outcome, ok, raise, Error}
use tacktcix.Audit.{AuditLogger, Sinks, Calls}

-- The line is written once, where the destination says; the error stream takes it where the stream
-- cannot, for a file without a path, and for a destination that is none of the three.
pub data Written (c : Calls) (l : AuditLogger) (line : String) (s : Sinks) : Sinks → Type 0 where
  on_stdout :
      l.destination ≡ "stdout" → Written c l line s (record s { stdout = s.stdout ++ line ∷ [] })
  on_file :
      (path : String) (lines : List String)
      → l.destination ≡ "file"
      → l.file_path ≡ some path
      → c.append path s.file line ≡ ok lines
      → Written c l line s (record s { file = lines })
  on_stream :
      (entries : List String)
      → l.destination ≡ "redis-stream"
      → c.xadd s.stream line ≡ some entries
      → Written c l line s (record s { stream = entries })
  refused :
      l.destination ≡ "redis-stream"
      → c.xadd s.stream line ≡ none
      → Written c l line s (record s { stderr = s.stderr ++ line ∷ [] })
  no_path :
      l.destination ≡ "file"
      → l.file_path ≡ none
      → Written c l line s (record s { stderr = s.stderr ++ line ∷ [] })
  unknown :
      l.destination ≢ "stdout"
      → l.destination ≢ "file"
      → l.destination ≢ "redis-stream"
      → Written c l line s (record s { stderr = s.stderr ++ line ∷ [] })

module _ (c : Calls) (l : AuditLogger) where
  -- The exception is that of appending the line to the file of the logger.
  abbrev pub AppendRaises : String → Sinks → Error → Type 0
  AppendRaises line s x =
      (path : String) × (l.destination ≡ "file")
      × (l.file_path ≡ some path)
      × (c.append path s.file line ≡ raise x)

  -- What a call ends in: the line is written, or the file refuses it.
  Writes : String → Sinks → Outcome Sinks → Type 0
  Writes line s o =
      ((s' : Sinks) × (o ≡ ok s') × Written c l line s s')
      ⊎ ((x : Error) × (o ≡ raise x) × AppendRaises line s x)
