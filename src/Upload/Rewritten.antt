-- ===== src/Upload/Rewritten.antt =====
-- What internal/upload/rewrite.go makes of the parts of a form.

use gitlab_workhorse.Base.{
  ◌≡◌, refl, sym, ap, ◌∙◌, ◌⊎◌, inl, inr, List, [], ◌∷◌, ◌++◌, none, some, Bool, true, false, arith,
  Bool-cases, Option-cases, append_assoc, append-nil,
}
use gitlab_workhorse.Base.Text.{text_eq}
use gitlab_workhorse.Api.{ApiResponse}
use gitlab_workhorse.FileStore.{Storage, Stored, save_file_from_reader, git_lab_finalize_fields}
use gitlab_workhorse.FileStore.Saved.{IsSaved, SaveResult-cases, save_file_from_reader-IsSaved}
use gitlab_workhorse.Upload.{
  Part, Piece, copied_part, Processor, Rewriting, written, rewrite_failed, UploadError, is_illegal,
  write_fields, part_opts, finalize_file, handle_file_part, copy_part, rewrite_part, rewrite_parts,
}

pub Rewriting-cases :
    {P : Type 0} (x : Rewriting P)
    → ((e : UploadError) × (x ≡ rewrite_failed e))
      ⊎ ((q : P) × (out : List Piece) × (x ≡ written q out))
Rewriting-cases (rewrite_failed e) = inl (e, refl)
Rewriting-cases (written q out) = inr (q, out, refl)

state_or : {P : Type 0} → P → Rewriting P → P
state_or q (rewrite_failed e) = q
state_or q (written q' out) = q'

pieces_of : {P : Type 0} → Rewriting P → List Piece
pieces_of (rewrite_failed e) = []
pieces_of (written q out) = out

pub written_injective :
    {P : Type 0} {q q' : P} {x y : List Piece} → written q x ≡ written q' y → (q ≡ q') × (x ≡ y)
unfolding state_or pieces_of
written_injective {q = q} e = (ap (state_or q) e, ap pieces_of e)

abbrev pub IsFile : Part → Type 0
IsFile p = (text_eq p.form_name [] ≡ false) × (text_eq p.file_name [] ≡ false)

module _ {P : Type 0} (env : Storage) (preauth : ApiResponse) (filter : Processor P) where
  -- A file was saved under a legal name, and its fields stand for it, with what the processor adds.
  pub record IsFileRewritten (p : Part) (q q' : P) (pieces : List Piece) : Type 0 where
    pub legal : is_illegal p.file_name ≡ false
    pub stored : Stored
    pub is_saved : IsSaved env (part_opts env preauth filter p) p.reader none stored
    pub more : List Piece
    pub processed : filter.process_file p.form_name stored.handler q ≡ some (q', more)
    pub pieces_eq :
        pieces ≡ write_fields (git_lab_finalize_fields stored.handler p.form_name) ++ more

  -- A field was read to the end and is copied with its header.
  pub record IsFieldCopied (p : Part) (q q' : P) (pieces : List Piece) : Type 0 where
    pub is_field : text_eq p.file_name [] ≡ true
    pub complete : p.reader.read_fails ≡ false
    pub processed : filter.process_field p.form_name q ≡ some q'
    pub pieces_eq : pieces ≡ copied_part p.header p.reader.content ∷ []

  -- One part: without a form name it is dropped, else it is a file or a field.
  abbrev pub IsRewritten : Part → P → P → List Piece → Type 0
  IsRewritten p q q' pieces =
      ((text_eq p.form_name [] ≡ true) × (q' ≡ q) × (pieces ≡ []))
      ⊎ ((f : IsFile p) × IsFileRewritten p q q' pieces)
      ⊎ ((named : text_eq p.form_name [] ≡ false) × IsFieldCopied p q q' pieces)

  -- All parts, one after the other.
  abbrev pub AreRewritten : List Part → P → P → List Piece → Type 0
  AreRewritten [] q q' pieces = (q' ≡ q) × (pieces ≡ [])
  AreRewritten (p ∷ ps) q q' pieces =
      (mid : P) × (front : List Piece) × (back : List Piece) × (pieces ≡ front ++ back)
      × IsRewritten p q mid front
      × AreRewritten ps mid q' back

  file_part-IsRewritten :
      (p : Part) (q : P) (before : List Piece) (q' : P) (out : List Piece)
      → handle_file_part env preauth filter p q before ≡ written q' out
      → (pieces : List Piece) × (out ≡ before ++ pieces) × IsFileRewritten p q q' pieces
  unfolding handle_file_part finalize_file
  file_part-IsRewritten p q before q' out e =
      let opts = part_opts env preauth filter p in
      let legal : is_illegal p.file_name ≡ false = ground (arith, e) in
      elim (SaveResult-cases (save_file_from_reader env opts p.reader none)) [
        | inl (x, failed) ↦ absurd (ground (arith, e, failed, legal))
        | inr (st, done) ↦ elim (Option-cases (filter.process_file p.form_name st.handler q)) [
          | inl refused ↦ absurd (ground (arith, e, done, refused, legal))
          | inr ((q1, more), ran) ↦
              let fields = write_fields (git_lab_finalize_fields st.handler p.form_name) in
              let end : written q1 (before ++ fields ++ more) ≡ written q' out =
                ground (arith, e, done, ran, legal) in
              (
                fields ++ more,
                sym (written_injective end).1 ∙ append_assoc before fields more,
                record {
                  legal = legal;
                  stored = st;
                  is_saved = save_file_from_reader-IsSaved env opts p.reader none st done;
                  more = more;
                  processed = ran ∙ ap (λ x. some (x, more)) (written_injective end).0;
                  pieces_eq = refl;
                },
              )
        ]
      ]

  copy_part-IsRewritten :
      (p : Part) (q : P) (before : List Piece) (q' : P) (out : List Piece)
      → text_eq p.file_name [] ≡ true
      → copy_part env preauth filter p q before ≡ written q' out
      → (pieces : List Piece) × (out ≡ before ++ pieces) × IsFieldCopied p q q' pieces
  unfolding copy_part
  copy_part-IsRewritten p q before q' out plain e =
      elim (Option-cases (filter.process_field p.form_name q)) [
        | inl refused ↦ absurd (ground (arith, e, refused))
        | inr (q1, ran) ↦ (
          copied_part p.header p.reader.content ∷ [],
          ground (arith, e, ran),
          record {
            is_field = plain;
            complete = ground (arith, e);
            processed = ground (arith, e, ran);
            pieces_eq = refl;
          },
        )
      ]

  rewrite_part-IsRewritten :
      (p : Part) (q : P) (before : List Piece) (q' : P) (out : List Piece)
      → rewrite_part env preauth filter p q before ≡ written q' out
      → (pieces : List Piece) × (out ≡ before ++ pieces) × IsRewritten p q q' pieces
  unfolding rewrite_part
  rewrite_part-IsRewritten p q before q' out e = elim (Bool-cases (text_eq p.form_name [])) [
    | inl anonymous ↦ (
      [],
      ground (arith, e, anonymous, append-nil before),
      inl (anonymous, ground (arith, e, anonymous), refl),
    )
    | inr named ↦ elim (Bool-cases (text_eq p.file_name [])) [
      | inl is_field ↦
          let (pieces, split, done) =
            copy_part-IsRewritten p q before q' out is_field (ground (arith, e, named, is_field)) in
          (pieces, split, inr (inr (named, done)))
      | inr is_file ↦
          let (pieces, split, done) =
            file_part-IsRewritten p q before q' out (ground (arith, e, named, is_file)) in
          (pieces, split, inr (inl ((named, is_file), done)))
    ]
  ]

  -- A rewriting that ends without an error has read all parts to the end, has saved every file under
  -- a legal name, and has written, in the order of the parts, the fields of each saved file with what
  -- the processor adds, and each other named part as it was; parts without a name are dropped.
  pub rewrite_parts-AreRewritten :
      (ps : List Part) (broken : Bool) (q : P) (before : List Piece) (q' : P) (out : List Piece)
      → rewrite_parts env preauth filter ps broken q before ≡ written q' out
      → (pieces : List Piece) × (broken ≡ false)
        × (out ≡ before ++ pieces)
        × AreRewritten ps q q' pieces
  unfolding rewrite_parts
  rewrite_parts-AreRewritten [] broken q before q' out e =
      ([], ground (arith, e), ground (arith, e, append-nil before), (ground (arith, e), refl))
  rewrite_parts-AreRewritten (p ∷ ps) broken q before q' out e =
      elim (Rewriting-cases (rewrite_part env preauth filter p q before)) [
        | inl (x, failed) ↦ absurd (ground (arith, e, failed))
        | inr (mid, out1, one) ↦
            let (front, split1, first) = rewrite_part-IsRewritten p q before mid out1 one in
            let (back, finished, split2, others) =
              rewrite_parts-AreRewritten ps broken mid out1 q' out (ground (arith, e, one)) in
            (
              front ++ back,
              finished,
              ground (arith, split1, split2, append_assoc before front back),
              (mid, front, back, refl, first, others),
            )
      ]
