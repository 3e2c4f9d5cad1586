-- ===== src/Executor/Source.antt =====
-- `download_source` of src/build_engine/executor/workspace.py. `urlparse` and `urljoin`, `str.lower`
-- and the digest of some bytes are parameters; what the server answers is data.
pub mod Verified
use Prim.Native.String.{◌++◌ as join}
use build_engine.Prelude.{
  ℕ, ◌+◌, String, Bool, true, false, not, ◌&&◌, ◌||◌, Option, none, some, List, [], ◌∷◌, ◌++◌, map,
  ◌==◌, leb, ltb, length, codes, str_eq, str_mem, if◌then◌else◌,
}
use build_engine.Result.{Result, ok, err, ◌>>=◌, ◌>>◌, require}

pub data WorkspaceError : Type 0 where
  bad_sha256 not_https no_host other_host redirect_not_https redirect_leaves : WorkspaceError
  bad_content_length wrong_size too_large download_failed wrong_sha256 : WorkspaceError

-- What `urlparse` returns.
pub record Url : Type 0 where
  pub scheme : String
  pub netloc : String

pub record Web : Type 0 where
  pub urlparse : String → Url
  pub urljoin : String → String → String
  pub lower : String → String
  pub sha256 : List ℕ → String

pub record SourceRequest : Type 0 where
  pub source_url : String
  pub expected_sha256 : String
  pub expected_size : Option ℕ
  pub max_bytes : Option ℕ
  pub allowed_origins : List String
  pub allow_file : Bool

abbrev is_any_hex : ℕ → Bool
is_any_hex c = (leb 48 c && leb c 57) || (leb 97 c && leb c 102) || (leb 65 c && leb c 70)

abbrev all_any_hex : List ℕ → Bool
all_any_hex [] = true
all_any_hex (c ∷ cs) = is_any_hex c && all_any_hex cs

-- [0-9a-fA-F]{64}
unfoldable pub is_sha256 : String → Bool
is_sha256 text = length (codes text) == 64 && all_any_hex (codes text)

-- The hosts of the allowed origins that have one.
unfoldable pub hosts_of : Web → List String → List String
hosts_of w [] = []
hosts_of w (origin ∷ more) =
    let rest = hosts_of w more in
    if str_eq (w.urlparse origin).netloc "" then rest else (w.urlparse origin).netloc ∷ rest

abbrev is_empty : List String → Bool
is_empty [] = true
is_empty (x ∷ xs) = false

-- The checks of `_open_source`, before it opens a file or sends a request.
unfoldable pub check_source : Web → SourceRequest → Result WorkspaceError (Unit {0})
check_source w q =
    let url = w.urlparse q.source_url in
    if str_eq url.scheme "file"
    then require q.allow_file not_https
    else if not (str_eq url.scheme "https")
    then err not_https
    else if str_eq url.netloc ""
    then err no_host
    else if not (is_empty q.allowed_origins)
        && not (str_mem url.netloc (hosts_of w q.allowed_origins))
    then err other_host
    else ok tt

-- `_origin`
abbrev pub origin_of : Web → String → String
origin_of w value =
    join (w.lower (w.urlparse value).scheme) (join "://" (w.lower (w.urlparse value).netloc))

-- `self.allowed_origins or {self.source_origin}`
unfoldable pub permitted_origins : Web → SourceRequest → List String
permitted_origins w q =
    if is_empty q.allowed_origins
    then origin_of w q.source_url ∷ []
    else map (origin_of w) q.allowed_origins

-- `redirect_request`: the next request of the opener.
unfoldable pub redirect_request :
    Web → SourceRequest → String → String → Result WorkspaceError String
redirect_request w q current newurl =
    let target = w.urljoin current newurl in
    let url = w.urlparse target in
    if not (str_eq url.scheme "https") || str_eq url.netloc ""
    then err redirect_not_https
    else if not (str_mem (origin_of w target) (permitted_origins w q))
    then err redirect_leaves
    else ok target

-- The requests that the redirects of the server lead to.
unfoldable pub follow :
    Web → SourceRequest → String → List String → Result WorkspaceError (List String)
follow w q current [] = ok []
follow w q current (newurl ∷ more) = do
  target ← redirect_request w q current newurl
  targets ← follow w q target more
  ok (target ∷ targets)

-- The header Content-Length: missing, no number that is at least 0, or a number.
pub data ContentLength : Type 0 where
  missing invalid : ContentLength
  bytes : ℕ → ContentLength

-- What is read: the chunks, and whether reading fails behind them.
pub record Response : Type 0 where
  pub redirects : List String
  pub content_length : ContentLength
  pub chunks : List (List ℕ)
  pub fails : Bool

unfoldable pub content_length : ContentLength → Result WorkspaceError (Option ℕ)
content_length missing = ok none
content_length invalid = err bad_content_length
content_length (bytes n) = ok (some n)

abbrev same_size : Option ℕ → Option ℕ → Bool
same_size (some expected) (some actual) = expected == actual
same_size _ _ = true

abbrev within : Option ℕ → ℕ → Bool
within none n = true
within (some max) n = leb n max

abbrev size_within : Option ℕ → Option ℕ → Bool
size_within max none = true
size_within max (some n) = within max n

-- The loop that reads and writes, after `total` bytes.
unfoldable pub read_chunks : Option ℕ → Bool → ℕ → List (List ℕ) → Result WorkspaceError (List ℕ)
read_chunks max fails total [] = if fails then err download_failed else ok []
read_chunks max fails total (chunk ∷ chunks) = do
  require (within max (total + length chunk)) too_large
  rest ← read_chunks max fails (total + length chunk) chunks
  ok (chunk ++ rest)

-- What the file holds that `download_source` leaves.
unfoldable pub download_source : Web → SourceRequest → Response → Result WorkspaceError (List ℕ)
download_source w q response = do
  require (is_sha256 q.expected_sha256) bad_sha256
  check_source w q
  targets ← follow w q q.source_url response.redirects
  actual ← content_length response.content_length
  require (same_size q.expected_size actual) wrong_size
  require (size_within q.max_bytes q.expected_size) too_large
  content ← read_chunks q.max_bytes response.fails 0 response.chunks
  require (str_eq (w.lower (w.sha256 content)) (w.lower q.expected_sha256)) wrong_sha256
  ok content
