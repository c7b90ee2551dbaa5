-- ===== src/FileStore.antt =====
-- internal/filestore: where an uploaded file goes, and what Rails is told about it.
pub mod Options
pub mod Saved
pub mod Limits
pub mod Body
pub mod Examples
use mathlib.Core.Option
use gitlab_workhorse.Base.{
  ℕ, zero, suc, ◌+◌, ◌*◌, ◌==◌, ltb, ◌&&◌, ◌||◌, List, [], ◌∷◌, ◌++◌, Option, none, some, Bool,
  true, false, not, if◌then◌else◌, length,
}
use gitlab_workhorse.Base.Text.{Text, codes, text_eq, decimal}
use gitlab_workhorse.Base.Dict.{Dict, lookup, insert}
use gitlab_workhorse.FileStore.Options.{SaveFileOpts, is_local, is_remote, is_multipart}

-- `FileHandler`.
pub record FileHandler : Type 0 where
  pub local_path : Text
  pub remote_id : Text
  pub remote_url : Text
  pub size : ℕ
  pub name : Text
  pub hashes : Dict Text

-- What `Close` and `ETag` of an upload to the object store come to.
pub data Closed : Type 0 where
  uploaded : Text → Closed
  not_enough_parts close_error : Closed

-- The interface `objectstore.Upload`: whether it opens, whether it takes all bytes of a copy, and
-- how it ends once they have been written.
pub record Upload : Type 0 where
  pub opens : Bool
  pub accepts : Text → Bool
  pub close : Text → Closed

-- The environment: the two kinds of uploads, what `ioutil.TempFile` makes in a directory (`none` is
-- an error of it or of `os.MkdirAll`), whether the disk takes all bytes, and the hash functions.
pub record Storage : Type 0 where
  pub multipart : SaveFileOpts → Upload
  pub object : SaveFileOpts → Option ℕ → Upload
  pub temp_file : Text → Text → Option Text
  pub disk_accepts : Text → Bool
  pub checksum : Text → Text → Text

pub data SaveError : Type 0 where
  open_error local_error missing_destination copy_error : SaveError
  size_error : ℕ → ℕ → SaveError
  err_entity_too_large remote_error : SaveError

-- What is read: bytes, and then the end or an error.
pub record Reader : Type 0 where
  pub content : Text
  pub read_fails : Bool

-- A saved file with what each destination holds.
pub record Stored : Type 0 where
  pub handler : FileHandler
  pub on_disk : Option Text
  pub in_store : Option Text

pub data SaveResult : Type 0 where
  saved : Stored → SaveResult
  save_failed : SaveError → SaveResult

-- The keys of `hashFactories`.
unfoldable pub md5 : Text
md5 = codes "md5"

unfoldable pub sha1 : Text
sha1 = codes "sha1"

unfoldable pub sha256 : Text
sha256 = codes "sha256"

unfoldable pub sha512 : Text
sha512 = codes "sha512"

unfoldable pub etag : Text
etag = codes "etag"

abbrev pub hash_factories : List Text
hash_factories = md5 ∷ sha1 ∷ sha256 ∷ sha512 ∷ []

-- `multiHash.finish`, after some bytes have been written.
unfoldable pub finish : (Text → Text → Text) → List Text → Text → Dict Text
finish checksum [] content = []
finish checksum (name ∷ names) content =
    insert name (checksum name content) (finish checksum names content)

-- `FileHandler.SHA256`.
unfoldable pub get_sha256 : FileHandler → Text
get_sha256 fh = elim (lookup sha256 fh.hashes) [ none ↦ [] | some h ↦ h ]

abbrev pub key_of : Text → Text → Text
key_of prefix field = if text_eq prefix [] then field else prefix ++ codes "." ++ field

unfoldable pub set_unless_empty : Text → Text → Dict Text → Dict Text
set_unless_empty k v fields = if text_eq v [] then fields else insert k v fields

unfoldable pub add_hashes : Text → Dict Text → Dict Text → Dict Text
add_hashes prefix [] fields = fields
add_hashes prefix ((name, hash) ∷ hashes) fields =
    add_hashes prefix hashes (insert (key_of prefix name) hash fields)

-- `GitLabFinalizeFields`.
unfoldable pub git_lab_finalize_fields : FileHandler → Text → Dict Text
git_lab_finalize_fields fh prefix =
    let named = set_unless_empty (key_of prefix (codes "name")) fh.name [] in
    let local = set_unless_empty (key_of prefix (codes "path")) fh.local_path named in
    let remote = set_unless_empty (key_of prefix (codes "remote_url")) fh.remote_url local in
    let identified = set_unless_empty (key_of prefix (codes "remote_id")) fh.remote_id remote in
    let sized = insert (key_of prefix (codes "size")) (decimal fh.size) identified in
    add_hashes prefix fh.hashes sized

module _ (env : Storage) (opts : SaveFileOpts) where
  -- The object store's writer, where the options ask for one.
  unfoldable pub remote_writer : Option ℕ → Option Upload
  remote_writer size =
      if is_multipart opts
      then some (env.multipart opts)
      else if is_remote opts
      then some (env.object opts size)
      else none

  -- `uploadLocalFile`: the path of the file, where the options ask for one.
  unfoldable pub upload_local_file : Option (Option Text)
  upload_local_file =
      if is_local opts
      then Option.map some (env.temp_file opts.local_temp_path opts.temp_file_prefix)
      else some none

  -- Does `io.Copy` to all writers succeed?
  unfoldable pub copies : Reader → Option Upload → Option Text → Bool
  copies reader remote local =
      let remote_ok : Bool = elim remote [ none ↦ true | some u ↦ u.accepts reader.content ] in
      let local_ok : Bool = elim local [
        | none ↦ true
        | some path ↦ env.disk_accepts reader.content
      ] in
      not reader.read_fails && (remote_ok && local_ok)

  abbrev wrong_size : Option ℕ → ℕ → Bool
  wrong_size none n = false
  wrong_size (some size) n = not (size == n)

  abbrev expected : Option ℕ → ℕ
  expected none = 0
  expected (some size) = size

  -- The handler of a file that was copied, with its hashes.
  unfoldable pub copied : Reader → Option Upload → Option Text → Stored
  copied reader remote local = record {
    handler = record {
      local_path = elim local [ none ↦ [] | some path ↦ path ];
      remote_id = opts.remote_id;
      remote_url = opts.remote_url;
      size = length reader.content;
      name = opts.temp_file_prefix;
      hashes = finish env.checksum hash_factories reader.content;
    };
    on_disk = elim local [ none ↦ none | some path ↦ some reader.content ];
    in_store = elim remote [ none ↦ none | some u ↦ some reader.content ];
  }

  -- The remote writer is closed for its ETag.
  unfoldable pub close_remote : Reader → Stored → Option Upload → SaveResult
  close_remote reader st none = saved st
  close_remote reader st (some u) = elim (u.close reader.content) [
    | not_enough_parts ↦ save_failed err_entity_too_large
    | close_error ↦ save_failed remote_error
    | uploaded tag ↦
        let fh = st.handler in
        saved (record st { handler = record fh { hashes = insert etag tag fh.hashes } })
  ]

  -- From `io.Copy` on.
  unfoldable pub copy_to : Reader → Option ℕ → Option Upload → Option Text → SaveResult
  copy_to reader size remote local =
      let n = length reader.content in
      if copies reader remote local
      then if wrong_size size n
        then save_failed (size_error (expected size) n)
        else close_remote reader (copied reader remote local) remote
      else save_failed copy_error

  abbrev no_writer : Option Upload → Option Text → Bool
  no_writer none none = true
  no_writer none (some path) = false
  no_writer (some u) local = false

  unfoldable pub opened : Option Upload → Bool
  opened none = true
  opened (some u) = u.opens

  -- `SaveFileFromReader`; `none` stands for the size -1.
  unfoldable pub save_file_from_reader : Reader → Option ℕ → SaveResult
  save_file_from_reader reader size =
      let remote = remote_writer size in
      if opened remote
      then elim upload_local_file [
        | none ↦ save_failed local_error
        | some local ↦
            if no_writer remote local
            then save_failed missing_destination
            else copy_to reader size remote local
      ]
      else save_failed open_error
