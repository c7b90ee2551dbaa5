-- ===== src/Api/Settings/Equality.antt =====
-- What `IsEqual` of internal/api/terminal_settings.go decides.

use mathlib.Core.Path.{subst⁻¹}
use gitlab_workhorse.Base.{
  suc, ◌≡◌, ◌≢◌, refl, sym, ap, ◌∙◌, inl, inr, List, [], ◌∷◌, Option, none, some, true, false,
  length, All, arith, Bool-cases, ◌↔◌,
}
use gitlab_workhorse.Base.Text.{Text, text_eq, text_eq_iff, text_eq_refl}
use gitlab_workhorse.Base.Dict.{Dict, lookup, delete, lookup-delete, HasDistinctKeys, delete_absent}
use gitlab_workhorse.Http.{Header}
use gitlab_workhorse.Api.Settings.{
  TerminalSettings, same_values, values_of, same_headers, same_settings, is_equal,
}

module _ {V : Type 0} where
  delete-HasDistinctKeys :
      (k : Text) (m : Dict V) → HasDistinctKeys m → HasDistinctKeys (delete k m)
  unfolding delete
  delete-HasDistinctKeys k [] h = tt
  delete-HasDistinctKeys k ((i, v) ∷ m) h = elim (Bool-cases (text_eq i k)) [
    | inl same ↦
        subst⁻¹ HasDistinctKeys {y = delete k m} (ground (arith, same))
          (delete-HasDistinctKeys k m h.1)
    | inr other ↦
        subst⁻¹ HasDistinctKeys {y = (i, v) ∷ delete k m} (ground (arith, other))
          (ground (arith, h.0, lookup-delete k i m), delete-HasDistinctKeys k m h.1)
  ]

  length-delete :
      (k : Text) (v : V) (m : Dict V)
      → HasDistinctKeys m
      → lookup k m ≡ some v
      → suc (length (delete k m)) ≡ length m
  unfolding delete lookup
  length-delete k v [] h e = absurd (ground (arith, e))
  length-delete k v ((i, u) ∷ m) h e = elim (Bool-cases (text_eq i k)) [
    | inl same ↦
        let gone = delete_absent k m (ground (arith, h.0, text_eq_iff i k, same)) in
        ground (arith, same, gone)
    | inr other ↦ ground (arith, other, length-delete k v m h.1 (ground (arith, e, other)))
  ]

  fresh_key :
      (i j : Text) (v : V) (m : Dict V)
      → lookup i m ≡ none
      → lookup j m ≡ some v
      → text_eq i j ≡ false
  fresh_key i j v m gone found = elim (Bool-cases (text_eq i j)) [
    | inr other ↦ other
    | inl same ↦ absurd (ground (arith, text_eq_iff i j, same, gone, found))
  ]

  -- Two tables of one size, one of which has all that the other has.
  pub same_size_same :
      (m n : Dict V)
      → HasDistinctKeys m
      → HasDistinctKeys n
      → length m ≡ length n
      → ((k : Text) (v : V) → lookup k m ≡ some v → lookup k n ≡ some v)
      → (k : Text) → lookup k m ≡ lookup k n
  unfolding lookup
  same_size_same [] [] dm dn e has k = refl
  same_size_same [] (x ∷ n) dm dn e has k = absurd (ground (arith, e))
  same_size_same ((i, u) ∷ m) n dm dn e has k =
      let found = has i u (ground (arith, text_eq_refl i)) in
      let smaller = length-delete i u n dn found in
      let rest =
        same_size_same m (delete i n) dm.1 (delete-HasDistinctKeys i n dn)
          (ground (arith, smaller, e))
          (λ j v f. ground (
            arith,
            f,
            has j v (ground (arith, f, fresh_key i j v m dm.0 f)),
            fresh_key i j v m dm.0 f,
            lookup-delete i j n,
          ))
          k in
      elim (Bool-cases (text_eq i k)) [
        | inl same ↦ ground (arith, same, found, text_eq_iff i k)
        | inr other ↦ ground (arith, other, rest, lookup-delete i k n)
      ]

same_values-eq : (xs ys : List Text) → length xs ≡ length ys → same_values xs ys ≡ true → xs ≡ ys
unfolding same_values
same_values-eq [] [] e h = refl
same_values-eq [] (y ∷ ys) e h = absurd (ground (arith, e))
same_values-eq (x ∷ xs) [] e h = absurd (ground (arith, e))
same_values-eq (x ∷ xs) (y ∷ ys) e h =
    ground (arith, text_eq_iff y x, h, same_values-eq xs ys (ground (arith, e)) (ground (arith, h)))

same_values_refl : (xs : List Text) → same_values xs xs ≡ true
unfolding same_values
same_values_refl [] = refl
same_values_refl (x ∷ xs) = ground (arith, text_eq_refl x, same_values_refl xs)

-- Each header has a value.
abbrev pub HasValues : Header → Type 0
HasValues = All (λ e. e.1 ≢ [])

values_found : (o : Option (List Text)) (vs : List Text) → vs ≢ [] → vs ≡ values_of o → o ≡ some vs
values_found none vs some_value e = absurd (some_value e)
values_found (some us) vs some_value e = ap some (sym e)

same_headers-lookup :
    (h other : Header) (k : Text) (v : List Text)
    → HasValues h
    → same_headers h other ≡ true
    → lookup k h ≡ some v
    → lookup k other ≡ some v
unfolding same_headers lookup
same_headers-lookup [] other k v full e found = absurd (ground (arith, found))
same_headers-lookup ((i, u) ∷ h) other k v full e found = elim (Bool-cases (text_eq i k)) [
  | inr differ ↦
      same_headers-lookup h other k v full.1 (ground (arith, e)) (ground (arith, found, differ))
  | inl same ↦
      let theirs = values_of (lookup i other) in
      let equal = same_values-eq u theirs (ground (arith, e)) (ground (arith, e)) in
      ground (arith, found, same, text_eq_iff i k, values_found (lookup i other) u full.0 equal)
]

same_headers-agree :
    (h other : Header)
    → ((k : Text) (v : List Text) → lookup k h ≡ some v → lookup k other ≡ some v)
    → HasDistinctKeys h
    → same_headers h other ≡ true
unfolding same_headers lookup
same_headers-agree [] other has distinct = refl
same_headers-agree ((i, u) ∷ h) other has distinct =
    let found = has i u (ground (arith, text_eq_refl i)) in
    let rest =
      same_headers-agree h other
        (λ k v f. has k v (ground (arith, f, fresh_key i k v h distinct.0 f))) distinct.1 in
    ground (arith, found, rest, same_values_refl u)

-- The same settings, of which headers are tables.
pub record AreSame (t o : TerminalSettings) : Type 0 where
  pub subprotocols : t.subprotocols ≡ o.subprotocols
  pub header_count : length t.header ≡ length o.header
  pub header : (k : Text) → lookup k t.header ≡ lookup k o.header
  pub url : t.url ≡ o.url
  pub ca_pem : t.ca_pem ≡ o.ca_pem
  pub max_session_time : t.max_session_time ≡ o.max_session_time

-- For settings whose headers have each key once and no key without a value, `IsEqual` holds exactly
-- if all parts are the same, the headers in any order.
pub is_equal_iff :
    (t o : TerminalSettings)
    → HasDistinctKeys t.header
    → HasDistinctKeys o.header
    → HasValues t.header
    → (is_equal (some t) (some o) ≡ true) ↔ AreSame t o
unfolding is_equal same_settings
is_equal_iff t o dt do' full = (
  λ e. record {
    subprotocols =
        same_values-eq t.subprotocols o.subprotocols (ground (arith, e)) (ground (arith, e));
    header_count = ground (arith, e);
    header =
        same_size_same t.header o.header dt do' (ground (arith, e))
          (λ k v. same_headers-lookup t.header o.header k v full (ground (arith, e)));
    url = ground (arith, e, text_eq_iff t.url o.url);
    ca_pem = ground (arith, e, text_eq_iff t.ca_pem o.ca_pem);
    max_session_time = ground (arith, e);
  },
  λ s. ground (
    arith,
    s.subprotocols,
    s.header_count,
    s.url,
    s.ca_pem,
    s.max_session_time,
    same_values_refl t.subprotocols,
    same_headers-agree t.header o.header (λ k v f. sym (s.header k) ∙ f) dt,
    text_eq_refl t.url,
    text_eq_refl t.ca_pem,
  ),
)
