-- ===== src/Response/Stats.antt =====
-- internal/helper/logging.go: the writer that collects what the access log says.
pub mod Logged
mod Examples
use gitlab_workhorse.Base.{ℕ, ◌+◌, Bool, true, false, if◌then◌else◌}
use gitlab_workhorse.Base.Text.{Text}
use gitlab_workhorse.Http.{Header, ResponseWriter}

pub record StatsCollectingResponseWriter (S : Type 0) : Type 0 where
  pub rw : S
  pub status : ℕ
  pub wrote_header : Bool
  pub written : ℕ

module _ {S : Type 0} (w : ResponseWriter S) where
  abbrev pub new_stats_collecting_response_writer : S → StatsCollectingResponseWriter S
  new_stats_collecting_response_writer rw = record {
    rw = rw;
    status = 0;
    wrote_header = false;
    written = 0;
  }

  unfoldable pub stats_write_header :
      ℕ → StatsCollectingResponseWriter S → StatsCollectingResponseWriter S
  stats_write_header status l =
      if l.wrote_header
      then l
      else record l { wrote_header = true; status = status; rw = w.write_header status l.rw }

  unfoldable pub stats_write :
      Text → StatsCollectingResponseWriter S → StatsCollectingResponseWriter S × ℕ
  stats_write s l =
      let l' = if l.wrote_header then l else stats_write_header 200 l in
      let (rw, n) = w.write s l'.rw in (record l' { rw = rw; written = l'.written + n }, n)

  abbrev pub stats_writer : ResponseWriter (StatsCollectingResponseWriter S)
  stats_writer = record {
    header = λ l. w.header l.rw;
    set_header = λ h l. record l { rw = w.set_header h l.rw };
    write_header = stats_write_header;
    write = stats_write;
  }
