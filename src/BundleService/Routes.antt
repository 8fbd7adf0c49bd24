-- ===== src/BundleService/Routes.antt =====
-- operator/internal/bundleservice/handler/handler.go. Logging is left out; the verifier of a client's
-- identity is an interface and a parameter, and `ready` is what the readiness checker says, `none` where
-- there is none.
pub mod Revalidation
use kagenti_operator.Prelude.{
  ℕ, zero, suc, ◌+◌, Bool, true, false, not, ◌&&◌, Text, lit, is_empty, Option, none, some, List,
  [], ◌∷◌, ◌++◌, ◌==◌, leb, length, if◌then◌else◌,
}
use kagenti_operator.BundleService.SpiffeId.{ClientIdentity, from_request}
use kagenti_operator.BundleService.Watcher.{Indexer, Caches}
use kagenti_operator.BundleService.Provider.{
  Setup, Answer, failed_lookup, failed_conversion, failed_build, too_large, not_modified, bundle,
  get_bundle,
}

-- The status, the ETag header, empty where it is not set, and the body.
pub record Response : Type 0 where
  pub status : ℕ
  pub etag : Text
  pub body : Text

abbrev pub http_error : Text → ℕ → Response
http_error text status = record { status = status; etag = []; body = text ++ 10 ∷ [] }

unfoldable pub last_is : ℕ → Text → Bool
last_is c [] = false
last_is c (d ∷ []) = d == c
last_is c (d ∷ e ∷ s) = last_is c (e ∷ s)

unfoldable pub without_last : Text → Text
without_last [] = []
without_last (d ∷ []) = []
without_last (d ∷ e ∷ s) = d ∷ without_last (e ∷ s)

abbrev pub starts_with_quote : Text → Bool
starts_with_quote [] = false
starts_with_quote (c ∷ s) = c == 34

abbrev pub without_first : Text → Text
without_first [] = []
without_first (c ∷ s) = s

-- Extract If-None-Match, strip quotes
unfoldable pub strip_quotes : Text → Text
unfolding last_is without_last
strip_quotes header =
    if leb 2 (length header) && starts_with_quote header && last_is 34 header
    then without_last (without_first header)
    else header

abbrev pub quoted : Text → Text
quoted etag = 34 ∷ (etag ++ 34 ∷ [])

-- The response to what the provider returns.
abbrev pub of_data : (etag content : Text) → Response
of_data etag content = record { status = 200; etag = quoted etag; body = content }

unfoldable pub response_of : Answer → Response
response_of failed_lookup = http_error (lit "internal server error") 500
response_of failed_conversion = http_error (lit "internal server error") 500
response_of failed_build = http_error (lit "internal server error") 500
response_of too_large = http_error (lit "bundle too large") 413
response_of (not_modified etag) =
    if is_empty etag then of_data etag [] else record { status = 304; etag = []; body = [] }
response_of (bundle content etag) = of_data etag content

abbrev pub is_ready : Option Bool → Bool
is_ready none = true
is_ready (some ready) = ready

module _ (s : Setup) (verify : ClientIdentity → Bool) where
  abbrev pub with_response : Caches × Answer → Caches × Response
  with_response (c, a) = (c, response_of a)

  unfoldable pub serve_bundle :
      (ready : Option Bool) (now : ℕ) (idx : Indexer) (spiffe if_none_match : Text)
      → Caches
      → Caches × Response
  unfolding from_request strip_quotes get_bundle response_of
  serve_bundle ready now idx spiffe if_none_match c =
      if is_ready ready
      then (elim (from_request spiffe) [
        | none ↦ (c, http_error (lit "invalid client identity") 400)
        | some id ↦
            if verify id
            then with_response (get_bundle s now idx id (strip_quotes if_none_match) c)
            else (c, http_error (lit "unauthorized") 403)
      ])
      else (c, http_error (lit "service not ready") 503)

abbrev pub healthz : Response
healthz = record { status = 200; etag = []; body = lit "ok" }

unfoldable pub readyz : (ready : Option Bool) → Response
readyz ready =
    if is_ready ready
    then record { status = 200; etag = []; body = lit "ok" }
    else http_error (lit "not ready") 503
