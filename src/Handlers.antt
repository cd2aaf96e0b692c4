-- ===== src/Handlers.antt =====
-- internal/handlers/utils.go: from the client's answer to the reply of a handler.
pub mod Replies
use locaccel.Prelude.{
  ℕ, String, List, [], ◌∷◌, Option, none, some, Bool, true, false, not, ◌&&◌, eqb, ◌==◌,
  if◌then◌else◌,
}
use locaccel.Prelude.Panic.{Run, returns, panics, ◌>>=◌}
use locaccel.Prelude.Text.{is_empty}
use locaccel.Prelude.Text.Decimal.{itoa}
use locaccel.Http.Headers.{Header, values, get, has, put}
use locaccel.Etag.{etags_match}

-- A response of the client whose body is to be read; none is an error while reading it.
pub record Incoming (B : Type 0) : Type 0 where
  pub status_code : ℕ
  pub header : Header
  pub body : Option B

-- What is written to the `http.ResponseWriter`; none is no body.
pub record Reply (B : Type 0) : Type 0 where
  pub status_code : ℕ
  pub header : Header
  pub body : Option B

-- The errors of `client.Do` that are told apart.
pub data ClientError : Type 0 where
  timed_out unreachable internal : ClientError

pub data Answer (B : Type 0) : Type 0 where
  refused : ClientError → Answer B
  answered : Incoming B → Answer B

abbrev or_else : Run Bool → Run Bool → Run Bool
or_else panics r = panics
or_else (returns true) r = returns true
or_else (returns false) r = r

-- the loop over the values of If-None-Match
unfoldable pub matches_any : String → List String → Run Bool
matches_any etag [] = returns false
matches_any etag (match ∷ matches) = or_else (etags_match etag match) (matches_any etag matches)

unfoldable pub matches_original_query : Header → Header → Run Bool
unfolding matches_any
matches_original_query headers resp_header =
    let etag = get resp_header "Etag" in
    let last_modified = get resp_header "Last-Modified" in
    or_else
      (if is_empty etag then returns false else matches_any etag (values headers "If-None-Match"))
      (returns (not (is_empty last_modified) && last_modified == get headers "If-Modified-Since"))

-- `maps.Copy`
unfoldable pub copy_header : Header → Header → Header
copy_header target [] = target
copy_header target ((key, vs) ∷ header) = copy_header (put target key vs) header

abbrev pub bind {ℓ κ} : {A : Type ℓ} {B : Type κ} → Option A → (A → Option B) → Option B
bind none f = none
bind (some a) f = f a

-- Compression is a parameter: none is an error of the reader or of the writer.
module _ {B : Type 0} (gunzip gzip : B → Option B) (size : B → ℕ) where
  abbrev pub is_gzipped : Header → Bool
  is_gzipped header = get header "Content-Encoding" == "gzip"

  abbrev pub with_length : B → Header → Header
  with_length body header =
      if has header "Content-Length"
      then put header "Content-Length" (itoa (size body) ∷ [])
      else header

  -- the body as it is handed to `modify`
  abbrev pub decoded : Incoming B → Option B
  decoded resp = if is_gzipped resp.header then bind resp.body gunzip else resp.body

  abbrev pub encoded : Header → B → Option B
  encoded header body = if is_gzipped header then gzip body else some body

  -- `modify` gives what it leaves in the buffer of the JSON handler.
  unfoldable pub modify_body : (B → Incoming B → Option B) → Incoming B → Option (Incoming B)
  modify_body modify resp = bind (decoded resp) (λ content. bind (modify content resp) (λ changed.
      bind (encoded resp.header changed)
        (λ body. some (record resp { header = with_length body resp.header; body = some body }))))

  abbrev pub status_of : ClientError → ℕ
  status_of timed_out = 504
  status_of unreachable = 502
  status_of internal = 500

  abbrev pub only_status : Header → ℕ → Reply B
  only_status writer status_code = record {
    status_code = status_code;
    header = writer;
    body = none;
  }

  abbrev pub sent : Header → Option (Incoming B) → Reply B
  sent writer none = only_status writer 500
  sent writer (some resp) = record {
    status_code = resp.status_code;
    header = copy_header writer resp.header;
    body = resp.body;
  }

  abbrev pub optionally_modified :
      Option (B → Incoming B → Option B) → Incoming B → Option (Incoming B)
  optionally_modified none resp = some resp
  optionally_modified (some modify) resp = modify_body modify resp

  abbrev pub reply : Header → Option (B → Incoming B → Option B) → Incoming B → Bool → Reply B
  reply writer modify resp true = record {
    status_code = 304;
    header = copy_header writer resp.header;
    body = none;
  }
  reply writer modify resp false = sent writer (optionally_modified modify resp)

  abbrev pub recovered : Header → ClientError → Option (Reply B) → Reply B
  recovered writer err (some r) = r
  recovered writer err none = only_status writer (status_of err)

  abbrev pub recover : Option (ClientError → Option (Reply B)) → ClientError → Option (Reply B)
  recover none err = none
  recover (some recovery) err = recovery err

  -- `headers` are those of the request, and `writer` what the writer has already.
  unfoldable pub forward :
      Header
      → Header
      → Option (B → Incoming B → Option B)
      → Option (ClientError → Option (Reply B))
      → Answer B
      → Run (Reply B)
  unfolding modify_body matches_original_query copy_header
  forward writer headers modify recovery (refused err) =
      returns (recovered writer err (recover recovery err))
  forward writer headers modify recovery (answered resp) =
      (if eqb resp.status_code 200
        then matches_original_query headers resp.header
        else returns false)
      >>= (λ matches. returns (reply writer modify resp matches))
