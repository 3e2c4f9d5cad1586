-- ===== src/Examples/Sources.antt =====
-- Runs of the download of a source.
use build_engine.Prelude.{String, ◌≡◌, refl, false, some, [], ◌∷◌}
use build_engine.Result.{ok}
use build_engine.Executor.Source.{
  Web, SourceRequest, Response, missing, is_sha256, hosts_of, check_source, permitted_origins,
  redirect_request, follow, content_length, read_chunks, download_source,
}
use build_engine.Executor.Source.Verified.{IsVerified, download_source-IsVerified}

abbrev zeros : String
zeros = "0000000000000000000000000000000000000000000000000000000000000000"

-- Every address is one of the storage.
abbrev web : Web
web = record {
  urlparse = λ url. record { scheme = "https"; netloc = "storage.example.com" };
  urljoin = λ base url. url;
  lower = λ text. text;
  sha256 = λ content. zeros;
}

abbrev asked : SourceRequest
asked = record {
  source_url = "https://storage.example.com/source";
  expected_sha256 = zeros;
  expected_size = some 3;
  max_bytes = some 4;
  allowed_origins = "https://storage.example.com" ∷ [];
  allow_file = false;
}

abbrev response : Response
response = record {
  redirects = "https://storage.example.com/other" ∷ [];
  content_length = missing;
  chunks = (1 ∷ 2 ∷ []) ∷ (3 ∷ []) ∷ [];
  fails = false;
}

downloaded : download_source web asked response ≡ ok (1 ∷ 2 ∷ 3 ∷ [])
unfolding download_source is_sha256 check_source hosts_of follow redirect_request permitted_origins
    content_length read_chunks
downloaded = refl

download_source-IsVerified_example : IsVerified web asked response (1 ∷ 2 ∷ 3 ∷ [])
download_source-IsVerified_example =
    download_source-IsVerified web asked response (1 ∷ 2 ∷ 3 ∷ []) downloaded
