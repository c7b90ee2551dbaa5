-- ===== src/Response/Clean.antt =====
-- A header that no call sets: it is neither in a response nor sent.

use gitlab_workhorse.Base.{ℕ, ◌≡◌, ◌≢◌, List, [], ◌∷◌, none, some, arith, All}
use gitlab_workhorse.Base.Text.{Text, text_eq_iff}
use gitlab_workhorse.Base.Dict.{lookup, lookup-insert, lookup-delete}
use gitlab_workhorse.Http.{
  Header, Response, server_writer, server_write_header, server_write, commit, Action, set_header,
  del_header, write_header, write, act, serve,
}

-- Calls that do not set the header `k`.
abbrev pub NeverSets : Text → List Action → Type 0
NeverSets k = All (λ a. (v : Text) → a ≢ set_header k v)

-- The client has received a status and a header without `k`.
abbrev pub SentWithout : Text → Response → Type 0
SentWithout k r = (n : ℕ) × (h : Header) × (r.sent ≡ some (n, h)) × (lookup k h ≡ none)

-- Nothing has been sent with `k`, and nothing will be without a change of the header.
pub record Clean (k : Text) (r : Response) : Type 0 where
  pub absent : lookup k r.header ≡ none
  pub unsent : (n : ℕ) (h : Header) → r.sent ≡ some (n, h) → lookup k h ≡ none

pub act-Clean :
    (k : Text) (a : Action) (r : Response)
    → ((v : Text) → a ≢ set_header k v)
    → Clean k r
    → Clean k (act server_writer a r)
unfolding server_write_header server_write commit
act-Clean k (set_header j v) r never clean = record {
  absent =
      ground (arith, clean.absent, never v, lookup-insert j k (v ∷ []) r.header, text_eq_iff j k);
  unsent = clean.unsent;
}
act-Clean k (del_header j) r never clean = record {
  absent = ground (arith, clean.absent, lookup-delete j k r.header);
  unsent = clean.unsent;
}
act-Clean k (write_header n) r never clean = record {
  absent = ground (arith, clean.absent);
  unsent = λ m h e. ground (arith, clean.absent, clean.unsent m h);
}
act-Clean k (write s) r never clean = record {
  absent = ground (arith, clean.absent);
  unsent = λ m h e. ground (arith, clean.absent, clean.unsent m h);
}

pub serve-Clean :
    (k : Text) (as' : List Action) (r : Response)
    → NeverSets k as'
    → Clean k r
    → Clean k (serve server_writer as' r)
unfolding serve
serve-Clean k [] r never clean = clean
serve-Clean k (a ∷ as') r never clean = serve-Clean k as' _ never.1 (act-Clean k a r never.0 clean)
