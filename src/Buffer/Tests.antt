-- ===== src/Buffer/Tests.antt =====
-- The theorems on `Buffer` at concrete inputs.
use tiny_sql.Prelude.{some, ◌+◌, List, [], ◌∷◌, ◌++◌, arith, codes, length}
use tiny_sql.Buffer.{empty, read_lenenc_int, write_lenenc_int, write_lenenc_string}
use tiny_sql.Buffer.Valid.{IsValid}
use tiny_sql.Buffer.Reads.{lenenc_bytes}
use tiny_sql.Buffer.Writes.{empty-IsValid, unread-empty}
use tiny_sql.Buffer.System.{read_from_fd}
use tiny_sql.Buffer.Methods.{Method, calls, calls-IsValid}
use tiny_sql.Buffer.RoundTrip.{Returns, read_lenenc_int-write}

abbrev some_calls : List Method
some_calls =
    Method.write_lenenc_int 70000
    ∷ Method.read_uint8
    ∷ Method.read_bytes 9
    ∷ Method.skip 2
    ∷ Method.write_string (codes "ab")
    ∷ Method.read_null_terminated_string
    ∷ Method.write_to_fd 1
    ∷ []

calls-IsValid_example :
    IsValid (calls some_calls empty)
    × ¬ IsValid
        (read_from_fd
          ((calls some_calls empty).write_index + 1)
          (some (codes "x"))
          (calls some_calls empty)).1
calls-IsValid_example = calls-IsValid some_calls empty _ _ _ empty-IsValid (omega arith)

read_lenenc_int-write_example :
    Returns read_lenenc_int
      (write_lenenc_string (codes "ok") (write_lenenc_int 70000 empty))
      70000
      (lenenc_bytes (length (codes "ok")) ++ codes "ok")
read_lenenc_int-write_example =
    read_lenenc_int-write 70000 (codes "ok") empty (omega arith) empty-IsValid unread-empty
