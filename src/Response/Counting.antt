-- ===== src/Response/Counting.antt =====
-- internal/helper/countingresponsewriter.go.
pub mod Transparent
mod Examples
use gitlab_workhorse.Base.{ℕ, ◌+◌, ◌==◌, Bool, if◌then◌else◌}
use gitlab_workhorse.Base.Text.{Text}
use gitlab_workhorse.Http.{Header, ResponseWriter}

pub record CountingResponseWriter (S : Type 0) : Type 0 where
  pub rw : S
  pub status : ℕ
  pub count : ℕ

module _ {S : Type 0} (w : ResponseWriter S) where
  abbrev pub new_counting_response_writer : S → CountingResponseWriter S
  new_counting_response_writer rw = record { rw = rw; status = 0; count = 0 }

  unfoldable pub counting_write_header : ℕ → CountingResponseWriter S → CountingResponseWriter S
  counting_write_header status c =
      if c.status == 0 then record c { status = status; rw = w.write_header status c.rw } else c

  unfoldable pub counting_write : Text → CountingResponseWriter S → CountingResponseWriter S × ℕ
  counting_write s c =
      let c' = if c.status == 0 then counting_write_header 200 c else c in
      let (rw, n) = w.write s c'.rw in (record c' { rw = rw; count = c'.count + n }, n)

  abbrev pub counting_writer : ResponseWriter (CountingResponseWriter S)
  counting_writer = record {
    header = λ c. w.header c.rw;
    set_header = λ h c. record c { rw = w.set_header h c.rw };
    write_header = counting_write_header;
    write = counting_write;
  }
