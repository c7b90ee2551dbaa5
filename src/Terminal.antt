-- ===== src/Terminal.antt =====
-- internal/terminal: terminals of CI jobs over websockets.
pub mod Wrapper
pub mod Checker
pub mod Session
pub mod Admitted
mod Examples
use mathlib.Core.Option
use gitlab_workhorse.Base.{
  ℕ, ◌==◌, ◌||◌, List, [], ◌∷◌, Option, none, some, Bool, true, false, if◌then◌else◌,
}
use gitlab_workhorse.Base.Text.{Text, codes, text_eq}
use gitlab_workhorse.Http.{ResponseWriter, fail500}
use gitlab_workhorse.Http.Message.{Request}
use gitlab_workhorse.Api.{Api, ApiResponse, Backend, pre_authorize_handler}
use gitlab_workhorse.Api.Settings.{TerminalSettings, validate}

-- `Handler`: `parse_scheme` is the scheme that `url.Parse` finds, and `proxy_terminal` what
-- `ProxyTerminal` does between the server, the client and the goroutines that may stop it.
unfoldable pub handler :
    {S : Type 0}
    → ResponseWriter S
    → Api
    → Backend
    → (Text → Bool)
    → (Text → Option Text)
    → (Option TerminalSettings → Request → S → S)
    → Request
    → S
    → S
handler w api backend equal_fold parse_scheme proxy_terminal r s =
    pre_authorize_handler w api backend equal_fold
      (λ r' a s'. elim (validate parse_scheme a.terminal) [
        | some e ↦ fail500 w s'
        | none ↦ proxy_terminal a.terminal r' s'
      ])
      (codes "authorize") r s
