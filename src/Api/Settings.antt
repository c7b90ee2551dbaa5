-- ===== src/Api/Settings.antt =====
-- internal/api/terminal_settings.go: what Rails says about a terminal.
pub mod Equality
use mathlib.Core.Option
use gitlab_workhorse.Base.{
  ℕ, ◌==◌, ◌&&◌, ◌||◌, List, [], ◌∷◌, Option, none, some, Bool, true, false, not, if◌then◌else◌,
  length,
}
use gitlab_workhorse.Base.Text.{Text, codes, text_eq}
use gitlab_workhorse.Base.Dict.{lookup}
use gitlab_workhorse.Http.{Header}

pub record TerminalSettings : Type 0 where
  pub subprotocols : List Text
  pub url : Text
  pub header : Header
  pub ca_pem : Text
  pub max_session_time : ℕ

pub data SettingsError : Type 0 where
  not_specified no_subprotocol invalid_url invalid_scheme : SettingsError

-- `Validate`, on a pointer that may be nil, given the scheme that `url.Parse` finds.
unfoldable pub validate : (Text → Option Text) → Option TerminalSettings → Option SettingsError
validate parse_scheme none = some not_specified
validate parse_scheme (some t) =
    if length t.subprotocols == 0 then some no_subprotocol else elim (parse_scheme t.url) [
      | none ↦ some invalid_url
      | some scheme ↦
          if text_eq scheme (codes "ws") || text_eq scheme (codes "wss")
          then none
          else some invalid_scheme
    ]

-- The loop over the elements of one list; an index that the other list lacks would panic, and does
-- not occur, since the lengths were compared.
unfoldable pub same_values : List Text → List Text → Bool
same_values [] ys = true
same_values (x ∷ xs) [] = false
same_values (x ∷ xs) (y ∷ ys) = let rest = same_values xs ys in if text_eq y x then rest else false

abbrev pub values_of : Option (List Text) → List Text
values_of none = []
values_of (some vs) = vs

-- The loop over the headers of one side: a key that the other side lacks has no values.
unfoldable pub same_headers : Header → Header → Bool
same_headers [] other = true
same_headers ((k, vs) ∷ h) other =
    let theirs = values_of (lookup k other) in
    let rest = same_headers h other in
    if length vs == length theirs && same_values vs theirs then rest else false

unfoldable pub same_settings : TerminalSettings → TerminalSettings → Bool
same_settings t other =
    if length t.subprotocols == length other.subprotocols
      && same_values t.subprotocols other.subprotocols
    then if length t.header == length other.header && same_headers t.header other.header
      then text_eq t.url other.url
        && (text_eq t.ca_pem other.ca_pem && (t.max_session_time == other.max_session_time))
      else false
    else false

-- `IsEqual`, on pointers that may be nil.
unfoldable pub is_equal : Option TerminalSettings → Option TerminalSettings → Bool
is_equal none none = true
is_equal none (some o) = false
is_equal (some t) none = false
is_equal (some t) (some o) = same_settings t o
