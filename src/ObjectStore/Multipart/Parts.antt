-- ===== src/ObjectStore/Multipart/Parts.antt =====
-- What the parts of internal/objectstore/multipart.go contain.

use mathlib.Core.Path.{subst⁻¹}
use gitlab_workhorse.Base.{
  ℕ, suc, ◌+◌, ◌-◌, ◌*◌, ◌≤◌, ◌<◌, ◌≡◌, ◌≢◌, refl, sym, ap, ◌∙◌, ◌↔◌, ◌⊎◌, inl, inr, ◌==◌, List, [],
  ◌∷◌, ◌++◌, Option, none, some, Bool, true, length, take, drop, arith, append_assoc, append-nil,
  take-append-drop, Bool-cases, All, All-append, length-append, length-take, length-drop,
}
use gitlab_workhorse.Base.Text.{Text}
use gitlab_workhorse.Base.{some_of_ne_none}
use gitlab_workhorse.ObjectStore.Multipart.{
  err_not_enough_parts, CompleteMultipartUploadPart, PartResult, no_part, part_failed, uploaded,
  UploadError, Progress, Outcome, ended, Loop, stopped, left_over, read_and_upload_one_part,
  upload_parts, add_part, complete, finish, new_multipart, verify_etag,
}

-- All the bytes that have been uploaded.
abbrev pub content : List (Text × Text) → Text
content [] = []
content ((url, src) ∷ ps) = src ++ content ps

content-append : (ps qs : List (Text × Text)) → content (ps ++ qs) ≡ content ps ++ content qs
content-append [] qs = refl
content-append ((url, src) ∷ ps) qs =
    ground (arith, content-append ps qs, append_assoc src (content ps) (content qs))

regroup : (a s d p : Text) → s ++ d ≡ p → (a ++ (s ++ [])) ++ d ≡ a ++ p
regroup a s d p e = ground (arith, e, append-nil s, append_assoc a s d)

take_bound : (n : ℕ) (s : Text) → length (take n s) ≤ n
take_bound n s = omega (arith, length-take n s)

left_step : (l s k : ℕ) → (l - s) - s * k ≡ l - s * suc k
left_step l s k = omega arith

length_zero : (s : Text) → length s ≡ 0 → s ≡ []
length_zero [] e = refl
length_zero (c ∷ s) e = absurd (ground (arith, e))

module _ (part_size : ℕ) (buffers : ℕ → Bool) (upload_part : Text → Text → Option Text)
    (complete_request : List CompleteMultipartUploadPart → Option Text)
    (build_etag : List CompleteMultipartUploadPart → Option Text) where
  abbrev parts_of : List Text → ℕ → Text → Progress → Loop
  parts_of urls i pipe m =
      upload_parts part_size buffers upload_part complete_request build_etag urls i pipe m

  -- A part holds between one byte and the part size.
  abbrev pub IsFilled : Text × Text → Type 0
  IsFilled (url, src) = (0 < length src) × (length src ≤ part_size)

  one_part : Text → Text → ℕ → PartResult
  one_part url src i =
      read_and_upload_one_part part_size buffers upload_part complete_request build_etag url src i

  PartResult-cases :
      (r : PartResult)
      → (r ≡ no_part) ⊎ (r ≡ part_failed) ⊎ ((p : CompleteMultipartUploadPart) × (r ≡ uploaded p))
  PartResult-cases no_part = inl refl
  PartResult-cases part_failed = inr (inl refl)
  PartResult-cases (uploaded p) = inr (inr (p, refl))

  no_part_empty : (url src : Text) (i : ℕ) → one_part url src i ≡ no_part → src ≡ []
  unfolding one_part read_and_upload_one_part
  no_part_empty url [] i e = refl
  no_part_empty url (c ∷ s) i e = absurd (ground (arith, e))

  uploaded_some :
      (url src : Text) (i : ℕ) (p : CompleteMultipartUploadPart)
      → one_part url src i ≡ uploaded p
      → 0 < length src
  unfolding one_part read_and_upload_one_part
  uploaded_some url src i p e = ground (arith, e)

  -- What the loop has done when it does not stop.
  record Cut (urls : List Text) (pipe : Text) (m : Progress) (rest : Text) (m' : Progress)
      : Type 0 where
    all : content m'.sent ++ rest ≡ content m.sent ++ pipe
    filled : All IsFilled m.sent → All IsFilled m'.sent
    numbers : length m.part ≡ length m.sent → length m'.part ≡ length m'.sent
    bound : length m'.sent ≤ length m.sent + length urls

  upload_parts-Cut :
      (urls : List Text) (i : ℕ) (pipe : Text) (m : Progress) (rest : Text) (m' : Progress)
      → parts_of urls i pipe m ≡ left_over rest m'
      → Cut urls pipe m rest m'
  unfolding upload_parts one_part
  upload_parts-Cut [] i pipe m rest m' e = record {
    all = ground (arith, e);
    filled = λ h. ground (arith, e, h);
    numbers = λ h. ground (arith, e, h);
    bound = ground (arith, e);
  }
  upload_parts-Cut (url ∷ urls) i pipe m rest m' e =
      let src = take part_size pipe in
      let whole = take-append-drop part_size pipe in
      elim (PartResult-cases (one_part url src i)) [
        | inr (inl bad) ↦ absurd (ground (arith, e, bad))
        | inl none_left ↦
            let empty = no_part_empty url src i none_left in
            record {
              all = ground (arith, e, none_left, empty, whole);
              filled = λ h. ground (arith, e, none_left, h);
              numbers = λ h. ground (arith, e, none_left, h);
              bound = ground (arith, e, none_left);
            }
        | inr (inr (p, good)) ↦
            let m1 =
              add_part part_size buffers upload_part complete_request build_etag url src p m in
            let cut =
              upload_parts-Cut urls (i + 1) (drop part_size pipe) m1 rest m'
                (ground (arith, e, good)) in
            record {
              all =
                  cut.all
                  ∙ ap (λ t. t ++ drop part_size pipe) (content-append m.sent ((url, src) ∷ []))
                  ∙ regroup (content m.sent) src (drop part_size pipe) pipe whole;
              filled = λ h. cut.filled (
                  All-append IsFilled m.sent ((url, src) ∷ []) h
                    ((uploaded_some url src i p good, take_bound part_size pipe), tt));
              numbers = λ h. cut.numbers (
                  ground (
                    arith,
                    h,
                    length-append m.part (p ∷ []),
                    length-append m.sent ((url, src) ∷ []),
                  ));
              bound = ground (arith, cut.bound, length-append m.sent ((url, src) ∷ []));
            }
      ]

  abbrev run : List Text → Text → Bool → Outcome
  run urls written drains =
      new_multipart part_size buffers upload_part complete_request build_etag urls written drains

  Loop-cases :
      (l : Loop)
      → ((e : UploadError) × (m : Progress) × (l ≡ stopped e m))
        ⊎ ((rest : Text) × (m : Progress) × (l ≡ left_over rest m))
  Loop-cases (stopped e m) = inl (e, m, refl)
  Loop-cases (left_over rest m) = inr (rest, m, refl)

  abbrev start : Progress
  start = record { part = []; sent = []; etag = [] }

  complete_keeps :
      (m m' : Progress) (e : Option UploadError)
      → complete part_size buffers upload_part complete_request build_etag m ≡ ended e m'
      → (m'.sent ≡ m.sent) × (m'.part ≡ m.part)
  unfolding complete
  complete_keeps m m' e h = (ground (arith, h), ground (arith, h))

  -- If the upload ends without an error, the parts that were uploaded are, put together, exactly the
  -- bytes that were written; each holds between one byte and the part size; there are no more of
  -- them than there were URLs; and the completion named as many.
  pub parts_are_the_object :
      (urls : List Text) (written : Text) (drains : Bool) (m : Progress)
      → new_multipart part_size buffers upload_part complete_request build_etag urls written drains
        ≡ ended none m
      → (content m.sent ≡ written)
        × All IsFilled m.sent
        × (length m.sent ≤ length urls)
        × (length m.part ≡ length m.sent)
  unfolding new_multipart finish
  parts_are_the_object urls written drains m e = elim (Loop-cases (parts_of urls 1 written start)) [
    | inl (x, m', bad) ↦ absurd (ground (arith, e, bad))
    | inr (rest, m', good) ↦
        let cut = upload_parts-Cut urls 1 written start rest m' good in
        let drained : length rest ≡ 0 = ground (arith, e, good) in
        let (same, same_part) = complete_keeps m' m none (ground (arith, e, good)) in
        let nothing = length_zero rest drained in
        (
          ap content same
              ∙ sym (append-nil (content m'.sent))
              ∙ ap (λ t. content m'.sent ++ t) (sym nothing)
              ∙ cut.all,
          subst⁻¹ (All IsFilled) same (cut.filled tt),
          ground (arith, same, cut.bound),
          ground (arith, same, same_part, cut.numbers refl),
        )
  ]

  -- With an environment in which nothing fails, the loop leaves what does not fit the parts.
  loop_leaves :
      0 < part_size
      → ((i : ℕ) → buffers i ≡ true)
      → ((url src : Text) → upload_part url src ≢ none)
      → (urls : List Text) (i : ℕ) (pipe : Text) (m : Progress)
      → (rest : Text) × (m' : Progress) × (parts_of urls i pipe m ≡ left_over rest m')
        × (length rest ≡ length pipe - part_size * length urls)
  unfolding upload_parts read_and_upload_one_part
  loop_leaves positive buffered answered [] i pipe m = (pipe, m, refl, ground arith)
  loop_leaves positive buffered answered (url ∷ urls) i pipe m =
      let src = take part_size pipe in
      let shorter = length-drop part_size pipe in
      let size = length-take part_size pipe in
      elim (Bool-cases (length src == 0)) [
        | inl empty ↦ (
          drop part_size pipe,
          m,
          ground (arith, buffered i, empty),
          ground (arith, shorter, size, empty, positive),
        )
        | inr full ↦
            let (etag, got) = some_of_ne_none (upload_part url src) (answered url src) in
            let p : CompleteMultipartUploadPart = record { part_number = i; etag = etag } in
            let m1 =
              add_part part_size buffers upload_part complete_request build_etag url src p m in
            let (rest, m', done, left) =
              loop_leaves positive buffered answered urls (i + 1) (drop part_size pipe) m1 in
            (
              rest,
              m',
              ground (arith, buffered i, full, got, done),
              left
                  ∙ ap (λ n. n - part_size * length urls) shorter
                  ∙ left_step (length pipe) part_size (length urls),
            )
      ]

  -- If nothing fails around it and parts may hold something, an upload ends with "Not enough Parts"
  -- exactly when more was written than all its parts can hold.
  pub not_enough_parts_iff :
      ((i : ℕ) → buffers i ≡ true)
      → ((url src : Text) → upload_part url src ≢ none)
      → 0 < part_size
      → (urls : List Text) (written : Text)
      → ((m : Progress) × (new_multipart part_size buffers upload_part complete_request build_etag
              urls written true
            ≡ ended (some err_not_enough_parts) m))
        ↔ (part_size * length urls < length written)
  unfolding new_multipart finish complete verify_etag
  not_enough_parts_iff buffered answered positive urls written =
      let (rest, m, done, left) = loop_leaves positive buffered answered urls 1 written start in
      ((λ (m', e). ground (arith, done, left, e)), λ h. (m, ground (arith, done, left, h)))
