-- ===== src/Http/Message.antt =====
-- The requests and responses of Go's net/http as far as the program reads and writes them, and the
-- functions of internal/helper/helpers.go on their headers.

use gitlab_workhorse.Base.{
  arith, ℕ, ◌≡◌, List, [], ◌∷◌, ◌++◌, Option, none, some, Bool, true, false, if◌then◌else◌, All,
}
use gitlab_workhorse.Base.Text.{Text, codes, text_eq, text_eq_iff}
use gitlab_workhorse.Base.Dict.{lookup, lookup-insert, lookup-delete}
use gitlab_workhorse.Http.{
  Header, header_set, header_del, ResponseWriter, http_error, del_key, buffering,
}

pub record Url : Type 0 where
  pub scheme : Text
  pub host : Text
  pub path : Text
  pub raw_query : Text

-- `body` is what can be read of it before the end, or before an error if `body_fails`; `host` is the
-- field `Host`, and `content_length` is `none` where it is not known.
pub record Request : Type 0 where
  pub method : Text
  pub url : Url
  pub host : Text
  pub remote_addr : Text
  pub header : Header
  pub content_length : Option ℕ
  pub body : Text
  pub body_fails : Bool

-- Reading the body of a response fails after the bytes of `body` if `body_fails`.
pub record HttpResponse : Type 0 where
  pub status_code : ℕ
  pub header : Header
  pub body : Text
  pub body_fails : Bool

-- `Header().Del` for each of some keys.
unfoldable pub delete_keys : List Text → Header → Header
delete_keys [] h = h
delete_keys (k ∷ ks) h = delete_keys ks (header_del k h)

-- `strings.Join(prior, ", ")`.
unfoldable pub join_comma : List Text → Text
join_comma [] = []
join_comma (x ∷ []) = x
join_comma (x ∷ y ∷ xs) = x ++ codes ", " ++ join_comma (y ∷ xs)

unfoldable pub forwarded_for : Text
forwarded_for = codes "X-Forwarded-For"

-- `helper.SetForwardedFor`, given the host that `net.SplitHostPort` finds, if any.
unfoldable pub set_forwarded_for : (Text → Option Text) → Header → Request → Header
set_forwarded_for split_host_port new_headers original =
    elim (split_host_port original.remote_addr) [
      | none ↦ new_headers
      | some client_ip ↦ elim (lookup forwarded_for original.header) [
        | some prior ↦
            header_set forwarded_for (join_comma prior ++ codes ", " ++ client_ip) new_headers
        | none ↦ header_set forwarded_for client_ip new_headers
      ]
    ]

module _ {S : Type 0} (w : ResponseWriter S) where
  -- `http.NotFound`.
  unfoldable pub not_found : S → S
  not_found s = http_error w (codes "404 page not found") 404 s

  -- `helper.RequestEntityTooLarge`; the report and the log line are left out.
  unfoldable pub request_entity_too_large : S → S
  request_entity_too_large s = http_error w (codes "Request Entity Too Large") 413 s

  -- `helper.AllowResponseBuffering`.
  unfoldable pub allow_response_buffering : S → S
  allow_response_buffering s = del_key w buffering s

module _ where
  -- Is a key none of these?
  unfoldable pub is_other : Text → List Text → Bool
  is_other k [] = true
  is_other k (j ∷ js) = let rest = is_other k js in if text_eq k j then false else rest

  pub delete_keys_keeps :
      (k : Text) (ks : List Text) (h : Header)
      → lookup k h ≡ none
      → lookup k (delete_keys ks h) ≡ none
  unfolding delete_keys
  delete_keys_keeps k [] h e = e
  delete_keys_keeps k (j ∷ ks) h e =
      delete_keys_keeps k ks (header_del j h) (ground (arith, lookup-delete j k h, e))

  abbrev pub AreAbsent : List Text → Header → Type 0
  AreAbsent ks h = All (λ k. lookup k h ≡ none) ks

  pub delete_keys-AreAbsent : (ks : List Text) (h : Header) → AreAbsent ks (delete_keys ks h)
  unfolding delete_keys text_eq
  delete_keys-AreAbsent [] h = tt
  delete_keys-AreAbsent (k ∷ ks) h = (
    delete_keys_keeps k ks (header_del k h) (ground (arith, lookup-delete k k h, text_eq_iff k k)),
    delete_keys-AreAbsent ks (header_del k h),
  )

  pub header_set-AreAbsent :
      (ks : List Text) (k v : Text) (h : Header)
      → is_other k ks ≡ true
      → AreAbsent ks h
      → AreAbsent ks (header_set k v h)
  unfolding is_other
  header_set-AreAbsent [] k v h e gone = tt
  header_set-AreAbsent (j ∷ js) k v h e gone = (
    ground (arith, e, gone.0, lookup-insert k j (v ∷ []) h),
    header_set-AreAbsent js k v h (ground (arith, e)) gone.1,
  )
