-- ===== src/Terminal/Admitted.antt =====
-- Who gets a terminal from internal/terminal/terminal.go.

use gitlab_workhorse.Base.{
  ◌==◌, ◌≡◌, ◌≢◌, ◌⊎◌, inl, inr, refl, ap, ◌∙◌, List, [], Option, none, some, Bool, arith,
  Bool-cases, Option-cases, length,
}
use gitlab_workhorse.Base.Text.{Text, codes, text_eq, text_eq_iff}
use gitlab_workhorse.Http.{ResponseWriter, fail500}
use gitlab_workhorse.Http.Message.{Request}
use gitlab_workhorse.Api.{Api, Backend, pass_response_back, copy_auth_header}
use gitlab_workhorse.Api.Authorized.{IsAuthorized, next_needs_authorization}
use gitlab_workhorse.Api.Settings.{TerminalSettings, validate}
use gitlab_workhorse.Terminal.{handler}

-- Settings that a terminal can be opened with.
pub record AreValid (parse_scheme : Text → Option Text) (t : TerminalSettings) : Type 0 where
  pub has_subprotocol : t.subprotocols ≢ []
  pub scheme : Text
  pub parsed : parse_scheme t.url ≡ some scheme
  pub is_websocket : (scheme ≡ codes "ws") ⊎ (scheme ≡ codes "wss")

length_zero : (ts : List Text) → ts ≡ [] → length ts ≡ 0
length_zero ts e = ap length e

validate-AreValid :
    (parse_scheme : Text → Option Text) (o : Option TerminalSettings)
    → validate parse_scheme o ≡ none
    → (t : TerminalSettings) × (o ≡ some t) × AreValid parse_scheme t
unfolding validate
validate-AreValid parse_scheme none e = absurd (ground (arith, e))
validate-AreValid parse_scheme (some t) e = elim (Bool-cases (length t.subprotocols == 0)) [
  | inl nothing ↦ absurd (ground (arith, e, nothing))
  | inr named ↦ elim (Option-cases (parse_scheme t.url)) [
    | inl garbled ↦ absurd (ground (arith, e, named, garbled))
    | inr (scheme, parsed) ↦ (
      t,
      refl,
      record {
        has_subprotocol = λ empty. ground (arith, named, length_zero t.subprotocols empty);
        scheme = scheme;
        parsed = parsed;
        is_websocket = elim (Bool-cases (text_eq scheme (codes "ws"))) [
          | inl ws ↦ inl ((text_eq_iff scheme (codes "ws")).0 ws)
          | inr other ↦
              inr (ground (arith, e, named, parsed, other, text_eq_iff scheme (codes "wss")))
        ];
      },
    )
  ]
]

-- A terminal is opened only for a request that Rails has allowed with settings that are valid: some
-- subprotocol, and the URL of a websocket; it is opened with these settings. For any other request
-- the result is the same whatever the terminal would do.
pub terminal_needs_valid_settings :
    {S : Type 0} (w : ResponseWriter S) (api : Api) (env : Backend) (equal_fold : Text → Bool)
    → (parse_scheme : Text → Option Text) (r : Request) (s : S)
    → let result : (Option TerminalSettings → Request → S → S) → S =
        λ proxy. handler w api env equal_fold parse_scheme proxy r s in
      ((a : IsAuthorized api env (codes "authorize") r) × (t : TerminalSettings)
        × (a.answer.terminal ≡ some t)
        × AreValid parse_scheme t
        × ((proxy : Option TerminalSettings → Request → S → S)
            → result proxy
              ≡ proxy
                  (some t)
                  r
                  (w.set_header (copy_auth_header equal_fold a.response.header (w.header s)) s)))
      ⊎ ((answer : S) × ((proxy : Option TerminalSettings → Request → S → S)
            → result proxy ≡ answer))
unfolding handler
terminal_needs_valid_settings w api env equal_fold parse_scheme r s =
    elim (next_needs_authorization w api env equal_fold (codes "authorize") r s) [
      | inr (inl (_, failed)) ↦ inr (fail500 w s, λ proxy. failed _)
      | inr (inr (p, passed)) ↦ inr (pass_response_back w p.response s, λ proxy. passed _)
      | inl (a, reached) ↦
          let s1 = w.set_header (copy_auth_header equal_fold a.response.header (w.header s)) s in
          elim (Option-cases (validate parse_scheme a.answer.terminal)) [
            | inr (x, invalid) ↦ inr (fail500 w s1, λ proxy. reached _ ∙ ground (arith, invalid))
            | inl valid ↦
                let (t, given, good) = validate-AreValid parse_scheme a.answer.terminal valid in
                inl (a, t, given, good, λ proxy. reached _ ∙ ground (arith, valid, given))
          ]
    ]
