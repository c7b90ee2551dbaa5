-- ===== src/UrlPrefix/Examples.antt =====
-- `CleanURIPath` on concrete paths.
use gitlab_workhorse.Base.{◌≡◌, refl}
use gitlab_workhorse.Base.Text.{codes, text_eq, has_prefix, trim_prefix}
use gitlab_workhorse.UrlPrefix.{
  clean_uri_path, path_clean, split, clean_elements, flatten, join, ends_with_slash, strip,
}

traversal : strip (codes "/gitlab/") (codes "/gitlab/../../etc/./passwd/") ≡ codes "/etc/passwd/"
unfolding strip clean_uri_path path_clean split clean_elements flatten join ends_with_slash text_eq
    trim_prefix has_prefix
traversal = refl
