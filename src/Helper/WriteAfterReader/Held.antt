-- ===== src/Helper/WriteAfterReader/Held.antt =====
-- What internal/helper/writeafterreader.go holds back until the reader is drained.
use gitlab_workhorse.Base.{◌≡◌, refl, ◌∙◌, List, [], ◌∷◌, none, arith, All}
use gitlab_workhorse.Helper.WriteAfterReader.{
  Coupled, new_write_after_reader, busy_reader_read, coupled_writer_write,
}
use gitlab_workhorse.Helper.WriteAfterReader.Order.{Call, reads, writes, flushes, step, run}

abbrev pub IsNoFlush : Call → Type 0
IsNoFlush (flushes io) = ⊥
IsNoFlush k = Unit {0}

step_holds_back :
    (c : Coupled) (k : Call)
    → IsNoFlush k
    → (step c k).reader_error ≡ none
    → (c.reader_error ≡ none) × ((step c k).out ≡ c.out)
unfolding busy_reader_read coupled_writer_write
step_holds_back c (reads bytes err) p h = ground arith
step_holds_back c (writes s io) p h = ground arith
step_holds_back c (flushes io) p h = absurd p

run_from :
    (c : Coupled) (ks : List Call)
    → All IsNoFlush ks
    → (run c ks).reader_error ≡ none
    → (c.reader_error ≡ none) × ((run c ks).out ≡ c.out)
unfolding run
run_from c [] p h = (h, refl)
run_from c (k ∷ ks) p h =
    let (busy, same) = run_from (step c k) ks p.1 h in
    let (busy', same') = step_holds_back c k p.0 busy in (busy', same ∙ same')

-- Until a `Read` has returned an error, nothing reaches the underlying writer, but by a `Flush`.
pub run_holds_back :
    (ks : List Call)
    → All IsNoFlush ks
    → (run new_write_after_reader ks).reader_error ≡ none
    → (run new_write_after_reader ks).out ≡ []
run_holds_back ks p h = (run_from new_write_after_reader ks p h).1
