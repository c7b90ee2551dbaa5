-- ===== src/SendUrl.antt =====
-- internal/sendurl/sendurl.go: what Rails names by URL is fetched and sent to the client.
pub mod Ranges
pub mod Relayed
mod Examples
use mathlib.Core.Option
use gitlab_workhorse.Base.{
  ℕ, List, [], ◌∷◌, ◌++◌, Option, none, some, Bool, true, false, if◌then◌else◌,
}
use gitlab_workhorse.Base.Text.{Text, codes, text_eq}
use gitlab_workhorse.Base.Dict.{lookup, insert, insert_all}
use gitlab_workhorse.Http.{Header, ResponseWriter, fail500}
use gitlab_workhorse.Http.Message.{Request, HttpResponse}

pub record EntryParams : Type 0 where
  pub url : Text
  pub allow_redirects : Bool

-- `rangeHeaderKeys`.
unfoldable pub range_header_keys : List Text
range_header_keys =
    codes "If-Match"
    ∷ codes "If-Unmodified-Since"
    ∷ codes "If-None-Match"
    ∷ codes "If-Modified-Since"
    ∷ codes "If-Range"
    ∷ codes "Range"
    ∷ []

abbrev pub values_of : Option (List Text) → List Text
values_of none = []
values_of (some vs) = vs

-- The loop over the keys; a key that the request lacks gets no values.
unfoldable pub copy_keys : List Text → Header → Header → Header
copy_keys [] from h = h
copy_keys (k ∷ ks) from h = copy_keys ks from (insert k (values_of (lookup k from)) h)

-- The environment: `Unpack`, whether `http.NewRequest` takes a URL, and what a GET request comes to,
-- with redirects followed or not (`none` is an error).
pub record Client : Type 0 where
  pub unpack : Text → Option EntryParams
  pub is_valid : Text → Bool
  pub get : Bool → Text → Header → Option HttpResponse

module _ {S : Type 0} (w : ResponseWriter S) (client : Client) where
  -- The response is copied; where reading it fails, after what was read.
  unfoldable pub relay : HttpResponse → S → S
  relay resp s =
      let s1 = w.set_header (insert_all resp.header (w.header s)) s in
      let s2 = (w.write resp.body (w.write_header resp.status_code s1)).0 in
      if resp.body_fails then fail500 w s2 else s2

  -- `Inject`; the metrics and the log line are left out.
  unfoldable pub inject : Request → Text → S → S
  inject r send_data s = elim (client.unpack send_data) [
    | none ↦ fail500 w s
    | some params ↦
        if text_eq params.url []
        then fail500 w s
        else if client.is_valid params.url
        then elim (client.get params.allow_redirects params.url
            (copy_keys range_header_keys r.header [])) [
              | none ↦ fail500 w s
              | some resp ↦ relay resp s
            ]
        else fail500 w s
  ]
