-- ===== src/Upload/Accelerate/Signed.antt =====
-- What the signed header of internal/upload/accelerate.go says.

use gitlab_workhorse.Base.{
  ◌≡◌, ◌≢◌, refl, sym, ap, ◌∙◌, ◌⊎◌, inl, inr, List, [], ◌∷◌, Option, none, some, false, arith,
  Bool-cases, Option-cases, All,
}
use gitlab_workhorse.Base.Text.{Text, text_eq, text_eq_iff, text_eq_refl}
use gitlab_workhorse.Base.Dict.{Dict, lookup, insert, lookup-insert}
use gitlab_workhorse.Http.{header_get, header_set, content_type}
use gitlab_workhorse.Http.Message.{Request}
use gitlab_workhorse.Api.{ApiResponse}
use gitlab_workhorse.FileStore.{Storage, Stored}
use gitlab_workhorse.FileStore.Saved.{IsSaved}
use gitlab_workhorse.Upstream.{rewritten_fields_header}
use gitlab_workhorse.Upload.{
  Part, Piece, Processor, MultipartReader, FormWriter, with_form, part_opts,
}
use gitlab_workhorse.Upload.Rewritten.{IsFile, IsFileRewritten, IsRewritten, AreRewritten}
use gitlab_workhorse.Upload.Handled.{IsFinished}
use gitlab_workhorse.Upload.Accelerate.{
  SavedFileTracker, fields_of, track_file, finalize, saved_file_tracker,
}

module _ (env : Storage) (preauth : ApiResponse) (sign : Dict Text → Option Text) where
  abbrev filter : Processor SavedFileTracker
  filter = saved_file_tracker sign

  -- A part is a file with a name of its own, saved at a path.
  pub record IsFileAt (p : Part) (k v : Text) : Type 0 where
    pub is_file : IsFile p
    pub name : p.form_name ≡ k
    pub stored : Stored
    pub is_saved :
        IsSaved env (part_opts env preauth (saved_file_tracker sign) p) p.reader none stored
    pub path : stored.handler.local_path ≡ v

  abbrev pub HasFile : List Part → Text → Text → Type 0
  HasFile [] k v = ⊥
  HasFile (p ∷ ps) k v = IsFileAt p k v ⊎ HasFile ps k v

  track_step :
      (p : Part) (q q' : SavedFileTracker) (pieces : List Piece)
      → (f : IsFileRewritten env preauth filter p q q' pieces)
      → q' ≡ some (insert p.form_name f.stored.handler.local_path (fields_of q))
  unfolding track_file
  track_step p q q' pieces f = ground (arith, f.processed)

  field_step :
      (p : Part) (q q' : SavedFileTracker) (pieces : List Piece)
      → IsRewritten env preauth filter p q q' pieces
      → (q' ≡ q) × (IsFile p → ⊥)
        ⊎ ((f : IsFile p) × IsFileRewritten env preauth filter p q q' pieces)
  field_step p q q' pieces (inl (anonymous, same, nothing)) =
      inl (same, λ f. ground (arith, anonymous, f))
  field_step p q q' pieces (inr (inl (f, done))) = inr (f, done)
  field_step p q q' pieces (inr (inr (named, done))) =
      inl (ground (arith, done.processed), λ f. ground (arith, done.is_field, f))

  -- Each tracked field was there before, or stands for a saved file of the form.
  tracked-HasFile :
      (ps : List Part) (q q' : SavedFileTracker) (pieces : List Piece) (k v : Text)
      → AreRewritten env preauth filter ps q q' pieces
      → lookup k (fields_of q') ≡ some v
      → HasFile ps k v ⊎ (lookup k (fields_of q) ≡ some v)
  tracked-HasFile [] q q' pieces k v (same, nothing) e = inr (ground (arith, same, e))
  tracked-HasFile (p ∷ ps) q q' pieces k v (mid, front, back, split, one, rest) e =
      elim (tracked-HasFile ps mid q' back k v rest e) [
        | inl later ↦ inl (inr later)
        | inr before ↦ elim (field_step p q mid front one) [
          | inl (same, other) ↦ inr (ground (arith, same, before))
          | inr (f, done) ↦
              let path = done.stored.handler.local_path in
              let at_mid = ap (λ t. lookup k (fields_of t)) (track_step p q mid front done) in
              let step = sym at_mid ∙ before in
              let write = lookup-insert p.form_name k path (fields_of q) in
              elim (Bool-cases (text_eq p.form_name k)) [
                | inr differ ↦ inr (ground (arith, step, write, differ))
                | inl same ↦ inl (
                    inl (record {
                      is_file = f;
                      name = ground (arith, same, text_eq_iff p.form_name k);
                      stored = done.stored;
                      is_saved = done.is_saved;
                      path = ground (arith, step, write, same);
                    }))
              ]
        ]
      ]

  -- A tracked field stays.
  kept :
      (ps : List Part) (q q' : SavedFileTracker) (pieces : List Piece) (k : Text)
      → AreRewritten env preauth filter ps q q' pieces
      → lookup k (fields_of q) ≢ none
      → lookup k (fields_of q') ≢ none
  kept [] q q' pieces k (same, nothing) has = ground (arith, same, has)
  kept (p ∷ ps) q q' pieces k (mid, front, back, split, one, rest) has =
      kept ps mid q' back k rest (elim (field_step p q mid front one) [
        | inl (same, other) ↦ ground (arith, same, has)
        | inr (f, done) ↦
            let path = done.stored.handler.local_path in
            let step = ap (λ t. lookup k (fields_of t)) (track_step p q mid front done) in
            ground (arith, step, has, lookup-insert p.form_name k path (fields_of q))
      ])

  -- Every file of the form is tracked.
  files_tracked :
      (ps : List Part) (q q' : SavedFileTracker) (pieces : List Piece)
      → AreRewritten env preauth filter ps q q' pieces
      → All (λ p. IsFile p → lookup p.form_name (fields_of q') ≢ none) ps
  files_tracked [] q q' pieces done = tt
  files_tracked (p ∷ ps) q q' pieces (mid, front, back, split, one, rest) = (
    λ f. kept ps mid q' back p.form_name rest (elim (field_step p q mid front one) [
      | inl (same, other) ↦ absurd (other f)
      | inr (f', done) ↦
          let path = done.stored.handler.local_path in
          let step = ap (λ t. lookup p.form_name (fields_of t)) (track_step p q mid front done) in
          ground (
            arith,
            step,
            lookup-insert p.form_name p.form_name path (fields_of q),
            text_eq_refl p.form_name,
          )
    ]),
    files_tracked ps mid q' back rest,
  )

  -- The fields are the names of the form's files, each bound to where such a file was saved.
  pub record AreTheFiles (ps : List Part) (fields : Dict Text) : Type 0 where
    pub only : (k v : Text) → lookup k fields ≡ some v → HasFile ps k v
    pub every : All (λ p. IsFile p → lookup p.form_name fields ≢ none) ps

  rewritten-AreTheFiles :
      (ps : List Part) (q' : SavedFileTracker) (pieces : List Piece)
      → AreRewritten env preauth filter ps none q' pieces
      → AreTheFiles ps (fields_of q')
  unfolding lookup
  rewritten-AreTheFiles ps q' pieces done = record {
    only = λ k v e. elim (tracked-HasFile ps none q' pieces k v done e) [
      | inl found ↦ found
      | inr before ↦ absurd (ground (arith, before))
    ];
    every = files_tracked ps none q' pieces done;
  }

  other_header : text_eq content_type rewritten_fields_header ≡ false
  unfolding content_type rewritten_fields_header text_eq
  other_header = refl

  -- Let a request come without the header for rewritten fields, which the router takes away from
  -- clients, and let its form be rewritten. Then the request that goes on has that header exactly if
  -- fields were tracked, with their signature; and the tracked fields are the names of the form's
  -- files and no other names, each bound to the path of a saved file of that name.
  pub signed_fields-AreTheFiles :
      (form : FormWriter) (multipart_reader : Request → MultipartReader) (r r' : Request)
      → (f : IsFinished env preauth (saved_file_tracker sign) none form multipart_reader r r')
      → lookup rewritten_fields_header r.header ≡ none
      → AreTheFiles f.form_parts (fields_of f.state)
        × (((lookup rewritten_fields_header r'.header ≡ none) × (f.state ≡ none))
            ⊎ ((fields : Dict Text) × (token : Text) × (f.state ≡ some fields)
                × (sign fields ≡ some token)
                × (header_get rewritten_fields_header r'.header ≡ token)))
  unfolding finalize with_form
  signed_fields-AreTheFiles form multipart_reader r r' f fresh =
      let h1 = header_set content_type form.form_data_content_type r.header in
      let write =
        lookup-insert content_type rewritten_fields_header (form.form_data_content_type ∷ [])
          r.header in
      (
        rewritten-AreTheFiles f.form_parts f.state f.pieces f.rewritten,
        elim (Option-cases f.state) [
          | inl nothing ↦
              inl (ground (arith, f.finalized, nothing, write, fresh, other_header), nothing)
          | inr (fields, tracked) ↦ elim (Option-cases (sign fields)) [
            | inl refused ↦ absurd (ground (arith, f.finalized, tracked, refused))
            | inr (token, signed) ↦ inr (
              fields,
              token,
              tracked,
              signed,
              ground (
                arith,
                f.finalized,
                tracked,
                signed,
                lookup-insert rewritten_fields_header rewritten_fields_header (token ∷ []) h1,
                text_eq_refl rewritten_fields_header,
              ),
            )
          ]
        ],
      )
