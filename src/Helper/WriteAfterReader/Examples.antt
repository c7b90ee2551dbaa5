-- ===== src/Helper/WriteAfterReader/Examples.antt =====
-- Two writes before the request is read, one after; and a temporary file that fills up.
use gitlab_workhorse.Base.{◌≡◌, refl, List, [], ◌∷◌, ◌++◌, none, some, true}
use gitlab_workhorse.Base.Text.{Text, codes}
use gitlab_workhorse.Helper.WriteAfterReader.{
  new_write_after_reader, Io, eof, busy_reader_read, coupled_writer_write, flush, tempfile_write,
}
use gitlab_workhorse.Helper.WriteAfterReader.Order.{
  Call, reads, writes, run, all_sent, pending, run_prefix,
}

machine : Unit {0}
unfolding busy_reader_read coupled_writer_write flush tempfile_write run all_sent
machine = tt

abbrev fine : Io
fine = record { create = true; temp_write = none; seek = true; copy = none; sink = none }

abbrev early : List Call
early = writes (codes "ab") fine ∷ reads (codes "x") none ∷ writes (codes "c") fine ∷ []

abbrev push : List Call
push = early ++ reads [] (some eof) ∷ writes (codes "de") fine ∷ []

abbrev full : List Call
full = writes (codes "abc") (record fine { temp_write = some 1 }) ∷ writes (codes "d") fine ∷ []

pushed :
    ((run new_write_after_reader push).out ≡ codes "abcde")
    × (pending (run new_write_after_reader full) ≡ codes "a")
unfolding machine
pushed = (refl, refl)

run_prefix_example :
    (lost : Text) × ((((run new_write_after_reader full).out
          ++ pending (run new_write_after_reader full))
        ++ lost)
      ≡ all_sent full)
    × ((run new_write_after_reader full).write_error ≡ none → lost ≡ [])
run_prefix_example = run_prefix full (refl, (refl, tt))
