-- ===== src/Executor/Docker/Pinned.antt =====
-- The images of the builder manifest, in src/build_engine/executor/docker_runner.py.
use Prim.Native.String.{◌++◌ as join}
use Prim.Native.String.append
use Prim.Native.Char.{code}
use build_engine.Prelude.{
  ℕ, String, ◌≡◌, refl, ap, subst, ◌∙◌, Bool, true, false, not, ◌&&◌, ◌||◌, Option, none, some,
  List, [], ◌∷◌, ◌++◌, ◌==◌, All, codes, str_eq, Bool-cases, Option-cases, inl, inr, arith,
}
use build_engine.Result.{ok, >>=-eq-ok, require}
use build_engine.Json.{
  Json, Fields, end, field, null, bool, int, negative, float, float_other, str, arr, obj, get,
}
use build_engine.Executor.Docker.{
  ImageManifestEntry, Manifest, reference, is_digest, after_at, is_pinned, parse_entry,
  parse_entries, parse_image_manifest, entry_of, entry_named, resolve_image_reference,
  require_pinned_image, image_entries, check_v2, none_or_text, bad_version, not_pinned,
}

codes-join : (a b : String) → codes (join a b) ≡ codes a ++ codes b
codes-join String.[] b = ap codes (append.nil b)
codes-join (String.◌∷◌ c s) b =
    ap codes (append.cons c s b) ∙ ap (λ cs. code c ∷ cs) (codes-join s b)

-- A tag that is not empty and has neither white space nor an at sign.
abbrev plain : (ℕ → Bool) → List ℕ → Bool
plain is_space [] = true
plain is_space (c ∷ cs) = not (c == 64) && not (is_space c) && plain is_space cs

abbrev pub is_plain_tag : (ℕ → Bool) → List ℕ → Bool
is_plain_tag is_space [] = false
is_plain_tag is_space (c ∷ cs) = plain is_space (c ∷ cs)

after_at-plain :
    (is_space : ℕ → Bool) (tag rest : List ℕ)
    → plain is_space tag ≡ true
    → after_at is_space (tag ++ 64 ∷ rest) ≡ some rest
unfolding after_at
after_at-plain is_space [] rest h = refl
after_at-plain is_space (c ∷ cs) rest h = ground (arith, h, after_at-plain is_space cs rest)

is_pinned-tag :
    (is_space : ℕ → Bool) (tag digest : List ℕ)
    → is_plain_tag is_space tag ≡ true
    → is_digest digest ≡ true
    → is_pinned is_space (tag ++ 64 ∷ digest) ≡ true
unfolding is_pinned
is_pinned-tag is_space [] digest h d = absurd (cc)
is_pinned-tag is_space (c ∷ cs) digest h d =
    ground (arith, h, d, after_at-plain is_space (c ∷ cs) digest h)

abbrev HasDigest : String × ImageManifestEntry → Type 0
HasDigest (key, entry) = is_digest (codes entry.digest) ≡ true

parse_entry-HasDigest :
    (key : String) (json : Json) (entry : ImageManifestEntry)
    → parse_entry key json ≡ ok entry
    → is_digest (codes entry.digest) ≡ true
unfolding parse_entry
parse_entry-HasDigest key json entry h = ground arith

parse_entries-HasDigest :
    (entries : Fields) (manifest : Manifest)
    → parse_entries entries ≡ ok manifest
    → All HasDigest manifest
unfolding parse_entries
parse_entries-HasDigest end manifest h =
    let none_ : [] ≡ manifest = cc in subst (All HasDigest) none_ tt
parse_entries-HasDigest (field key json more) manifest h =
    let (entry, first, h1) = >>=-eq-ok (parse_entry key json) _ h in
    let (rest, others, h2) = >>=-eq-ok (parse_entries more) _ h1 in
    let all_ : (key, entry) ∷ rest ≡ manifest = cc in
    subst (All HasDigest) all_
      (parse_entry-HasDigest key json entry first, parse_entries-HasDigest more rest others)

image_entries-HasDigest :
    (images : Option Json) (manifest : Manifest)
    → image_entries images ≡ ok manifest
    → All HasDigest manifest
image_entries-HasDigest (some (obj (field key entry more))) manifest h =
    parse_entries-HasDigest (field key entry more) manifest h
image_entries-HasDigest (some (obj end)) manifest h = absurd (cc)
image_entries-HasDigest none manifest h = absurd (cc)
image_entries-HasDigest (some null) manifest h = absurd (cc)
image_entries-HasDigest (some (bool b)) manifest h = absurd (cc)
image_entries-HasDigest (some (int n)) manifest h = absurd (cc)
image_entries-HasDigest (some (negative n)) manifest h = absurd (cc)
image_entries-HasDigest (some (float n e)) manifest h = absurd (cc)
image_entries-HasDigest (some (float_other n)) manifest h = absurd (cc)
image_entries-HasDigest (some (str s)) manifest h = absurd (cc)
image_entries-HasDigest (some (arr items)) manifest h = absurd (cc)

parse_image_manifest-HasDigest :
    (v2 : Bool) (decoded : Json) (manifest : Manifest)
    → parse_image_manifest v2 decoded ≡ ok manifest
    → All HasDigest manifest
unfolding parse_image_manifest
parse_image_manifest-HasDigest v2 (obj decoded) manifest h =
    let (_, v, h1) = >>=-eq-ok (check_v2 v2 decoded) _ h in
    let (_, n, h2) = >>=-eq-ok (require (none_or_text (get "version" decoded)) bad_version) _ h1 in
    image_entries-HasDigest (get "images" decoded) manifest h2
parse_image_manifest-HasDigest v2 null manifest h = absurd (cc)
parse_image_manifest-HasDigest v2 (bool b) manifest h = absurd (cc)
parse_image_manifest-HasDigest v2 (int n) manifest h = absurd (cc)
parse_image_manifest-HasDigest v2 (negative n) manifest h = absurd (cc)
parse_image_manifest-HasDigest v2 (float n e) manifest h = absurd (cc)
parse_image_manifest-HasDigest v2 (float_other n) manifest h = absurd (cc)
parse_image_manifest-HasDigest v2 (str s) manifest h = absurd (cc)
parse_image_manifest-HasDigest v2 (arr items) manifest h = absurd (cc)

-- Tags that can be pinned: `_parse_image_manifest` only tests that a tag is not empty.
abbrev pub all_plain : (ℕ → Bool) → Manifest → Bool
all_plain is_space [] = true
all_plain is_space ((key, entry) ∷ more) =
    is_plain_tag is_space (codes entry.tag) && all_plain is_space more

abbrev IsGood : (ℕ → Bool) → ImageManifestEntry → Type 0
IsGood is_space entry = is_pinned is_space (codes (reference entry)) ≡ true

entry-IsGood :
    (is_space : ℕ → Bool) (entry : ImageManifestEntry)
    → is_plain_tag is_space (codes entry.tag) ≡ true
    → is_digest (codes entry.digest) ≡ true
    → IsGood is_space entry
entry-IsGood is_space entry tag digest =
    ap (is_pinned is_space) (
      codes-join entry.tag (join "@" entry.digest)
      ∙ ap (λ cs. codes entry.tag ++ cs) (codes-join "@" entry.digest))
    ∙ is_pinned-tag is_space (codes entry.tag) (codes entry.digest) tag digest

module _ (is_space : ℕ → Bool) (image : String) where
  entry_of-IsGood :
      (manifest : Manifest) (entry : ImageManifestEntry)
      → All HasDigest manifest
      → all_plain is_space manifest ≡ true
      → entry_of image manifest ≡ some entry
      → IsGood is_space entry
  unfolding entry_of
  entry_of-IsGood [] entry d p h = absurd (cc)
  entry_of-IsGood ((key, e) ∷ more) entry d p h = elim (Bool-cases (str_eq key image)) [
    | inl y ↦
        let same : e ≡ entry = ground (arith, h, y) in
        subst (IsGood is_space) same (entry-IsGood is_space e (ground (arith, p)) d.0)
    | inr n ↦ entry_of-IsGood more entry d.1 (ground (arith, p)) (ground (arith, h, n))
  ]

  entry_named-IsGood :
      (manifest : Manifest) (entry : ImageManifestEntry)
      → All HasDigest manifest
      → all_plain is_space manifest ≡ true
      → entry_named image manifest ≡ some entry
      → IsGood is_space entry
  unfolding entry_named
  entry_named-IsGood [] entry d p h = absurd (cc)
  entry_named-IsGood ((key, e) ∷ more) entry d p h =
      elim (Bool-cases (str_eq image e.tag || str_eq image (reference e))) [
        | inl y ↦
            let same : e ≡ entry = ground (arith, h, y) in
            subst (IsGood is_space) same (entry-IsGood is_space e (ground (arith, p)) d.0)
        | inr n ↦ entry_named-IsGood more entry d.1 (ground (arith, p)) (ground (arith, h, n))
      ]

-- Whatever image a plan asks for, the reference that the parsed builder manifest resolves it to is
-- pinned to a digest, so that pulling and running it are not refused. The tags of the manifest have
-- neither white space nor an at sign.
pub resolve_image_reference-pinned :
    (is_space : ℕ → Bool) (v2 : Bool) (decoded : Json) (manifest : Manifest) (image ref : String)
    → parse_image_manifest v2 decoded ≡ ok manifest
    → all_plain is_space manifest ≡ true
    → resolve_image_reference is_space image (some manifest) ≡ ok ref
    → require_pinned_image is_space ref ≡ ok tt
unfolding resolve_image_reference require_pinned_image
resolve_image_reference-pinned is_space v2 decoded manifest image ref parsed tags resolved =
    let digests = parse_image_manifest-HasDigest v2 decoded manifest parsed in
    elim (Option-cases (entry_of image manifest)) [
      | inr (entry, e) ↦
          let good = entry_of-IsGood is_space image manifest entry digests tags e in
          let same : reference entry ≡ ref = ground (arith, resolved, e) in
          subst (λ r. require (is_pinned is_space (codes r)) not_pinned ≡ ok tt) same (rw good refl)
      | inl e ↦ elim (Option-cases (entry_named image manifest)) [
        | inr (entry, f) ↦
            let good = entry_named-IsGood is_space image manifest entry digests tags f in
            let same : reference entry ≡ ref = ground (arith, resolved, e, f) in
            subst (λ r. require (is_pinned is_space (codes r)) not_pinned ≡ ok tt) same
              (rw good refl)
        | inl f ↦ absurd (ground (arith, resolved, e, f))
      ]
    ]
