-- ===== src/Service/Rest/Paths.antt =====
-- The ids that callers give stay one segment of the request's path.
use iothub.Base.{false, ◌≡◌, [], ◌∷◌, some, Str, Lacks, split}
use iothub.Go.Url.{unescape}

-- A path below `collection`: two segments, of which the second is decoded to `id`, and nothing that
-- ends a path.
pub record Names (collection id path : Str) : Type 0 where
  pub segment : Str
  pub segments : split b'/' path ≡ collection ∷ segment ∷ []
  pub decoded : unescape false segment ≡ some id
  pub no_query : Lacks b'?' path
  pub no_fragment : Lacks b'#' path
