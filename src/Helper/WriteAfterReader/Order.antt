-- ===== src/Helper/WriteAfterReader/Order.antt =====
-- Nothing that is written through internal/helper/writeafterreader.go is reordered or lost.
use mathlib.Core.Option
use gitlab_workhorse.Base.{
  ℕ, ◌≡◌, refl, sym, ap, ◌∙◌, inl, inr, List, [], ◌∷◌, ◌++◌, not, ◌&&◌, is_none, Option, none, some,
  true, arith, if◌then◌else◌, drop, append_assoc, append-nil, take-append-drop, All, Option-cases,
}
use gitlab_workhorse.Base.Text.{Text}
use gitlab_workhorse.Helper.WriteAfterReader.{
  Coupled, new_write_after_reader, Io, ReadError, WriteError, moved, busy_reader_read,
  coupled_writer_write, flush,
}

-- What the user of the pair does: `Read`, `Write`, `Flush`.
pub data Call : Type 0 where
  flushes : Io → Call
  reads : Text → Option ReadError → Call
  writes : Text → Io → Call

abbrev pub step : Coupled → Call → Coupled
step c (reads bytes err) = (busy_reader_read c bytes err).0
step c (writes s io) = (coupled_writer_write c s io).0
step c (flushes io) = (flush c io).0

unfoldable pub run : Coupled → List Call → Coupled
run c [] = c
run c (k ∷ ks) = run (step c k) ks

abbrev pub sent : Call → Text
sent (reads bytes err) = []
sent (writes s io) = s
sent (flushes io) = []

-- Everything that is passed to `Write`, in order.
unfoldable pub all_sent : List Call → Text
all_sent [] = []
all_sent (k ∷ ks) = sent k ++ all_sent ks

abbrev pub pending : Coupled → Text
pending c = Option.get_or c.tempfile []

-- The underlying writer takes all that it is given, and a `Flush` of the user works.
abbrev pub SinkWorks : Call → Type 0
SinkWorks (reads bytes err) = Unit {0}
SinkWorks (writes s io) = io.sink ≡ none
SinkWorks (flushes io) = (io.seek ≡ true) × (io.copy ≡ none)

-- What a step leaves of what has been sent: a prefix, and all of it where no error is kept.
pub record Kept (sofar : Text) (c : Coupled) : Type 0 where
  pub lost : Text
  pub whole : (c.out ++ pending c) ++ lost ≡ sofar
  pub none_lost : c.write_error ≡ none → lost ≡ []

-- The bytes that a call leaves behind.
abbrev unmoved : Text → Option ℕ → Text
unmoved s none = []
unmoved s (some n) = drop n s

moved-unmoved : (s : Text) (o : Option ℕ) → moved s o ++ unmoved s o ≡ s
moved-unmoved s none = append-nil s
moved-unmoved s (some n) = take-append-drop n s

-- What a write that comes after the reader was drained leaves behind.
abbrev unflushed : Option Text → Text → Io → Text
unflushed none s io = []
unflushed (some p) s io =
    if io.seek then elim io.copy [ none ↦ [] | some n ↦ drop n p ++ s ] else p ++ s

write_busy :
    (c : Coupled) (s : Text) (io : Io)
    → c.write_error ≡ none
    → c.reader_error ≡ none
    → Kept ((c.out ++ pending c) ++ s) (coupled_writer_write c s io).0
unfolding coupled_writer_write
write_busy c s io e busy = record {
  lost = if is_none c.tempfile && not io.create then s else unmoved s io.temp_write;
  whole = ground (
    arith,
    append_assoc c.out (pending c) s,
    append_assoc c.out (pending c) (moved s io.temp_write),
    append_assoc (c.out ++ pending c) (moved s io.temp_write) (unmoved s io.temp_write),
    moved-unmoved s io.temp_write,
  );
  none_lost = λ h. ground arith;
}

write_drained :
    (c : Coupled) (s : Text) (io : Io) (x : ReadError)
    → io.sink ≡ none
    → c.write_error ≡ none
    → c.reader_error ≡ some x
    → Kept ((c.out ++ pending c) ++ s) (coupled_writer_write c s io).0
unfolding coupled_writer_write
write_drained c s io x works e done = record {
  lost = unflushed c.tempfile s io;
  whole = ground (
    arith,
    append_assoc c.out (pending c) s,
    append_assoc c.out (moved (pending c) io.copy) (unmoved (pending c) io.copy ++ s),
    append_assoc (moved (pending c) io.copy) (unmoved (pending c) io.copy) s,
    append-nil c.out,
    append-nil (c.out ++ moved (pending c) io.copy),
    append-nil (c.out ++ s),
    append-nil ((c.out ++ pending c) ++ s),
    moved-unmoved (pending c) io.copy,
  );
  none_lost = λ h. ground arith;
}

read_out :
    (c : Coupled) (bytes : Text) (err : Option ReadError)
    → ((busy_reader_read c bytes err).0.out ≡ c.out)
      × ((busy_reader_read c bytes err).0.tempfile ≡ c.tempfile)
      × ((busy_reader_read c bytes err).0.write_error ≡ c.write_error)
unfolding busy_reader_read
read_out c bytes err = ground arith

write_stopped :
    (c : Coupled) (s : Text) (io : Io) (x : WriteError)
    → c.write_error ≡ some x
    → (coupled_writer_write c s io).0 ≡ c
unfolding coupled_writer_write
write_stopped c s io x e = ground arith

flush-Kept :
    (t : Text) (c : Coupled) (io : Io)
    → (io.seek ≡ true) × (io.copy ≡ none)
    → Kept t c
    → Kept (t ++ []) (flush c io).0
unfolding flush
flush-Kept t c io w kept = record {
  lost = kept.lost;
  whole =
      ground
        (arith, w, kept.whole, append-nil t, append-nil c.out, append-nil (c.out ++ pending c));
  none_lost = λ h. kept.none_lost (ground (arith, w));
}

step-Kept :
    (t : Text) (c : Coupled) (k : Call) → SinkWorks k → Kept t c → Kept (t ++ sent k) (step c k)
step-Kept t c (reads bytes err) w kept =
    let same = read_out c bytes err in
    record {
      lost = kept.lost;
      whole = ground (arith, same, kept.whole, append-nil t);
      none_lost = λ h. kept.none_lost (ground (arith, same));
    }
step-Kept t c (flushes io) w kept = flush-Kept t c io w kept
step-Kept t c (writes s io) w kept = elim (Option-cases c.write_error) [
  | inr (x, e) ↦
      let same = write_stopped c s io x e in
      record {
        lost = kept.lost ++ s;
        whole = ground (arith, same, kept.whole, append_assoc (c.out ++ pending c) kept.lost s);
        none_lost = λ h. absurd (ground (arith, same));
      }
  | inl e ↦
      let all : c.out ++ pending c ≡ t =
        ground (arith, kept.whole, kept.none_lost e, append-nil (c.out ++ pending c)) in
      elim (Option-cases c.reader_error) [
        | inl busy ↦ rw (← all) (write_busy c s io e busy)
        | inr (x, done) ↦ rw (← all) (write_drained c s io x w e done)
      ]
]

run-Kept :
    (t : Text) (c : Coupled) (ks : List Call)
    → All SinkWorks ks
    → Kept t c
    → Kept (t ++ all_sent ks) (run c ks)
unfolding run all_sent
run-Kept t c [] w kept = rw (append-nil t) kept
run-Kept t c (k ∷ ks) w kept =
    rw (← append_assoc t (sent k) (all_sent ks))
      (run-Kept (t ++ sent k) (step c k) ks w.1 (step-Kept t c k w.0 kept))

-- For any calls of `Read`, `Write` and `Flush` in which the underlying writer takes all that it is
-- given and no `Flush` of the user fails, whatever else fails in the temporary file: what has reached
-- the writer, followed by what waits in the file, is a prefix of what was passed to `Write`; and it
-- is all of it as long as no error is kept.
pub run_prefix :
    (ks : List Call)
    → All SinkWorks ks
    → let c = run new_write_after_reader ks in
      (lost : Text) × (((c.out ++ pending c) ++ lost) ≡ all_sent ks)
      × (c.write_error ≡ none → lost ≡ [])
run_prefix ks w =
    let kept =
      run-Kept [] new_write_after_reader ks w
        (record { lost = []; whole = refl; none_lost = λ _. refl }) in
    (kept.lost, kept.whole, kept.none_lost)

flush_out :
    (c : Coupled) (io : Io)
    → io.seek ≡ true
    → io.copy ≡ none
    → (flush c io).0.out ≡ c.out ++ pending c
unfolding flush
flush_out c io seek copy = ground (arith, append-nil c.out)

-- After such calls, if no error has been kept, a last `Flush` whose seek and copy succeed makes the
-- underlying writer have received exactly what was passed to `Write`, in order.
pub last_flush :
    (ks : List Call) (io : Io)
    → All SinkWorks ks
    → (run new_write_after_reader ks).write_error ≡ none
    → io.seek ≡ true
    → io.copy ≡ none
    → (flush (run new_write_after_reader ks) io).0.out ≡ all_sent ks
last_flush ks io w e seek copy =
    let (lost, whole, none_lost) = run_prefix ks w in
    let c = run new_write_after_reader ks in
    flush_out c io seek copy
    ∙ sym (append-nil (c.out ++ pending c))
    ∙ ap (◌++◌ (c.out ++ pending c)) (sym (none_lost e))
    ∙ whole
