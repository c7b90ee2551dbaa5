-- ===== src/Helper/WriteAfterReader.antt =====
-- internal/helper/writeafterreader.go: a reader and a writer that are coupled, so that until the
-- reader has been drained what is written goes to a temporary file.
pub mod Order
mod Held
mod Examples
use mathlib.Core.Option
use gitlab_workhorse.Base.{
  ℕ, zero, suc, ◌+◌, List, [], ◌∷◌, ◌++◌, Option, none, some, Bool, true, false, if◌then◌else◌,
  length, take,
}
use gitlab_workhorse.Base.Text.{Text}

pub data ReadError : Type 0 where
  eof read_failed : ReadError

pub data WriteError : Type 0 where
  create_failed temp_write_failed seek_failed copy_failed sink_failed : WriteError

-- How the system calls of one operation turn out. A write or a copy that fails has moved some bytes.
pub record Io : Type 0 where
  pub create : Bool
  pub temp_write : Option ℕ
  pub seek : Bool
  pub copy : Option ℕ
  pub sink : Option ℕ

-- `busyReader` and `coupledWriter`: the error of the reader once it has one, the contents of the
-- temporary file, and the bytes that have reached the underlying writer.
pub record Coupled : Type 0 where
  pub reader_error : Option ReadError
  pub tempfile : Option Text
  pub write_error : Option WriteError
  pub out : Text

abbrev pub new_write_after_reader : Coupled
new_write_after_reader = record {
  reader_error = none;
  tempfile = none;
  write_error = none;
  out = [];
}

abbrev pub is_busy : Coupled → Bool
is_busy c = elim c.reader_error [ none ↦ true | some e ↦ false ]

-- `busyReader.Read`, where the underlying reader answers with bytes and perhaps an error.
unfoldable pub busy_reader_read :
    Coupled → Text → Option ReadError → Coupled × Text × Option ReadError
busy_reader_read c bytes err = elim c.reader_error [
  | some e ↦ (c, [], some e)
  | none ↦ elim err [
    | none ↦ (c, bytes, none)
    | some e ↦ (record c { reader_error = some e }, bytes, some e)
  ]
]

-- The bytes that a call moves, and its error.
abbrev pub moved : Text → Option ℕ → Text
moved s none = s
moved s (some n) = take n s

abbrev failure : WriteError → Option ℕ → Option WriteError
failure e none = none
failure e (some n) = some e

-- `coupledWriter.Flush`: the file is forgotten first, and closed on every path.
unfoldable pub flush : Coupled → Io → Coupled × Option WriteError
flush c io = elim c.tempfile [
  | none ↦ (c, none)
  | some s ↦
      if io.seek
      then (
        record c { tempfile = none; out = c.out ++ moved s io.copy },
        failure copy_failed io.copy,
      )
      else (record c { tempfile = none }, some seek_failed)
]

-- `coupledWriter.tempfileWrite`, with the contents of the file that it writes to.
temp_append : Coupled → Text → Io → Text → Coupled × ℕ × Option WriteError
temp_append c s io contents = (
  record c { tempfile = some (contents ++ moved s io.temp_write) },
  length (moved s io.temp_write),
  failure temp_write_failed io.temp_write,
)

unfoldable pub tempfile_write : Coupled → Text → Io → Coupled × ℕ × Option WriteError
unfolding temp_append
tempfile_write c s io = elim c.tempfile [
  | some contents ↦ temp_append c s io contents
  | none ↦ if io.create then temp_append c s io [] else (c, 0, some create_failed)
]

sink_write : Coupled → Text → Io → Coupled × ℕ × Option WriteError
sink_write c s io = (
  record c { out = c.out ++ moved s io.sink },
  length (moved s io.sink),
  failure sink_failed io.sink,
)

-- An error of the temporary file is kept; one of the underlying writer is not.
keep_error : Coupled × ℕ × Option WriteError → Coupled × ℕ × Option WriteError
keep_error (c, n, none) = (c, n, none)
keep_error (c, n, some e) = (record c { write_error = some e }, n, some e)

after_flush : Text → Io → Coupled × Option WriteError → Coupled × ℕ × Option WriteError
unfolding sink_write
after_flush s io (c, none) = sink_write c s io
after_flush s io (c, some e) = (record c { write_error = some e }, 0, some e)

-- `coupledWriter.Write`.
unfoldable pub coupled_writer_write : Coupled → Text → Io → Coupled × ℕ × Option WriteError
unfolding keep_error after_flush tempfile_write flush
coupled_writer_write c s io = elim c.write_error [
  | some e ↦ (c, 0, some e)
  | none ↦ if is_busy c then keep_error (tempfile_write c s io) else after_flush s io (flush c io)
]
