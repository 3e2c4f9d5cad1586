-- ===== src/Executor/Source/Verified.antt =====
-- What `download_source` of src/build_engine/executor/workspace.py leaves, and where it comes from.
use build_engine.Prelude.{
  ℕ, ◌+◌, ◌≤◌, String, ◌≡◌, subst, ◌⊎◌, Bool, true, Option, none, some, List, [], ◌∷◌, ◌++◌, All,
  length, length-append, str_eq, str_mem, arith,
}
use build_engine.Result.{ok, >>=-eq-ok, require}
use build_engine.Executor.Source.{
  Web, SourceRequest, Response, bad_sha256, too_large, wrong_size, wrong_sha256, is_sha256,
  check_source, permitted_origins, origin_of, redirect_request, follow, content_length, same_size,
  size_within, within, read_chunks, download_source,
}

-- A request that stays within the permitted origins.
pub record IsPermitted (w : Web) (q : SourceRequest) (url : String) : Type 0 where
  pub secure : str_eq (w.urlparse url).scheme "https" ≡ true
  pub approved : str_mem (origin_of w url) (permitted_origins w q) ≡ true

redirect_request-IsPermitted :
    (w : Web) (q : SourceRequest) (current newurl target : String)
    → redirect_request w q current newurl ≡ ok target
    → IsPermitted w q target
unfolding redirect_request
redirect_request-IsPermitted w q current newurl target h =
    let same : w.urljoin current newurl ≡ target = ground (arith, h) in
    subst (IsPermitted w q) same
      (record { secure = ground (arith, h); approved = ground (arith, h) })

follow-IsPermitted :
    (w : Web) (q : SourceRequest) (current : String) (redirects targets : List String)
    → follow w q current redirects ≡ ok targets
    → All (IsPermitted w q) targets
unfolding follow
follow-IsPermitted w q current [] targets h =
    let none_ : [] ≡ targets = cc in subst (All (IsPermitted w q)) none_ tt
follow-IsPermitted w q current (newurl ∷ more) targets h =
    let (target, one, h1) = >>=-eq-ok (redirect_request w q current newurl) _ h in
    let (rest, others, h2) = >>=-eq-ok (follow w q target more) _ h1 in
    let all_ : target ∷ rest ≡ targets = cc in
    subst (All (IsPermitted w q)) all_ (
      redirect_request-IsPermitted w q current newurl target one,
      follow-IsPermitted w q target more rest others,
    )

-- A limit that is met, if there is one.
abbrev IsWithin : Option ℕ → ℕ → Type 0
IsWithin none n = Unit {0}
IsWithin (some max) n = n ≤ max

IsWithin-zero : (max : Option ℕ) → IsWithin max 0
IsWithin-zero none = tt
IsWithin-zero (some max) = omega arith

within-IsWithin : (max : Option ℕ) (n : ℕ) → within max n ≡ true → IsWithin max n
within-IsWithin none n h = tt
within-IsWithin (some max) n h = ground (arith, h)

read_chunks-IsWithin :
    (max : Option ℕ) (fails : Bool) (total : ℕ) (chunks : List (List ℕ)) (content : List ℕ)
    → IsWithin max total
    → read_chunks max fails total chunks ≡ ok content
    → IsWithin max (total + length content)
unfolding read_chunks
read_chunks-IsWithin max fails total [] content before h =
    let none_ : [] ≡ content = ground (arith, h) in
    subst (λ (xs : List ℕ). IsWithin max (total + length xs)) none_
      (subst (IsWithin max) (omega arith) before)
read_chunks-IsWithin max fails total (chunk ∷ chunks) content before h =
    let (_, fits, h1) = >>=-eq-ok (require (within max (total + length chunk)) too_large) _ h in
    let (rest, more, h2) = >>=-eq-ok (read_chunks max fails (total + length chunk) chunks) _ h1 in
    let whole : chunk ++ rest ≡ content = cc in
    let now_ = within-IsWithin max (total + length chunk) (ground (arith, fits)) in
    subst (λ (xs : List ℕ). IsWithin max (total + length xs)) whole
      (subst (IsWithin max) (omega (arith, length-append chunk rest))
        (read_chunks-IsWithin max fails (total + length chunk) chunks rest now_ more))

-- What a download that succeeded says of the file and of the requests that were sent for it.
pub record IsVerified (w : Web) (q : SourceRequest) (response : Response) (content : List ℕ)
    : Type 0 where
  pub digest : str_eq (w.lower (w.sha256 content)) (w.lower q.expected_sha256) ≡ true
  pub small : IsWithin q.max_bytes (length content)
  pub source :
      ((str_eq (w.urlparse q.source_url).scheme "file" ≡ true) × (q.allow_file ≡ true))
      ⊎ (str_eq (w.urlparse q.source_url).scheme "https" ≡ true)
  pub targets : List String
  pub followed : follow w q q.source_url response.redirects ≡ ok targets
  pub permitted : All (IsPermitted w q) targets

check_source-scheme :
    (w : Web) (q : SourceRequest)
    → check_source w q ≡ ok tt
    → ((str_eq (w.urlparse q.source_url).scheme "file" ≡ true) × (q.allow_file ≡ true))
      ⊎ (str_eq (w.urlparse q.source_url).scheme "https" ≡ true)
unfolding check_source
check_source-scheme w q h = ground (arith, h)

-- A download that succeeds leaves bytes with the digest of the assignment, no more than the limit,
-- and every request that it sent after the first one was to an approved origin by HTTPS; the first
-- one was too by HTTPS, or a file where the configuration allows that.
pub download_source-IsVerified :
    (w : Web) (q : SourceRequest) (response : Response) (content : List ℕ)
    → download_source w q response ≡ ok content
    → IsVerified w q response content
unfolding download_source
download_source-IsVerified w q response content h =
    let (_, hex, h1) = >>=-eq-ok (require (is_sha256 q.expected_sha256) bad_sha256) _ h in
    let (_, checked, h2) = >>=-eq-ok (check_source w q) _ h1 in
    let (targets, followed, h3) = >>=-eq-ok (follow w q q.source_url response.redirects) _ h2 in
    let (actual, sized, h4) = >>=-eq-ok (content_length response.content_length) _ h3 in
    let (_, same, h5) = >>=-eq-ok (require (same_size q.expected_size actual) wrong_size) _ h4 in
    let (_, small, h6) =
      >>=-eq-ok (require (size_within q.max_bytes q.expected_size) too_large) _ h5 in
    let (bytes, read, h7) =
      >>=-eq-ok (read_chunks q.max_bytes response.fails 0 response.chunks) _ h6 in
    let (_, equal, h8) =
      >>=-eq-ok
        (require (str_eq (w.lower (w.sha256 bytes)) (w.lower q.expected_sha256)) wrong_sha256) _
        h7 in
    let kept : bytes ≡ content = cc in
    subst (IsVerified w q response) kept (record {
      digest = ground (arith, equal);
      small = subst (IsWithin q.max_bytes) (omega arith) (
          read_chunks-IsWithin q.max_bytes response.fails 0 response.chunks bytes
            (IsWithin-zero q.max_bytes) read);
      source = check_source-scheme w q checked;
      targets = targets;
      followed = followed;
      permitted = follow-IsPermitted w q q.source_url response.redirects targets followed;
    })
