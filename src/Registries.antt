-- ===== src/Registries.antt =====
-- internal/handlers/<registry>: what the handlers of the registries do with a request, up to the
-- call of `handlers.Forward`.
pub mod Galaxy
pub mod Goproxy
pub mod Npm
pub mod Oci
pub mod Proxy
pub mod Pypi
pub mod Rubygem
pub mod Slashes
use locaccel.Prelude.{
  ℕ, code, String, List, [], ◌∷◌, ◌++◌, Option, none, some, Bool, true, false, eqb, if◌then◌else◌,
  zero, suc, ◌==◌,
}
use locaccel.Prelude.Panic.{Run, returns, panics, ◌>>=◌}
use locaccel.Prelude.Text.{◌<+>◌}
use locaccel.Http.Headers.{get, Header}
use locaccel.Http.Mux.{Segment, Pattern, ServerRequest, Mux, dispatch}
use locaccel.Client.{Url, UpstreamCache}
use locaccel.Handlers.{Incoming, Reply, ClientError}

-- The arguments of a call of `handlers.Forward`. A modification gives none for an error.
pub record Call (B : Type 0) : Type 0 where
  pub upstream : String
  pub modify : Option (B → Incoming B → Run (Option B))
  pub recovery : Option (Header → ClientError → Option (Reply B))
  pub caches : UpstreamCache

-- The pages of the admin interface, of which the profiler, the metrics and the static files are not
-- the program's own.
pub data Page : Type 0 where
  profiling metrics static healthcheck index : Page
  hostname remove : String → Page

-- A handler forwards the request, or writes a reply itself, of which the status is kept, or is one of
-- the admin interface.
pub data Action (B : Type 0) : Type 0 where
  forwards : Call B → Action B
  replies : ℕ → Action B
  page : Page → Action B

abbrev pub Handler : Type 0 → Type 0
Handler B = ServerRequest → Run (Action B)

-- `encoding/json` on the documents of a registry, none for an error.
pub record Json (B D : Type 0) : Type 0 where
  pub decode : B → Option D
  pub encode : D → Option B

-- the last byte of a text is a slash; none of an empty text, where the index is out of range
unfoldable pub ends_with_slash : String → Run Bool
ends_with_slash String.[] = panics
ends_with_slash (String.◌∷◌ c String.[]) = returns (eqb (code c) b'/')
ends_with_slash (String.◌∷◌ c (String.◌∷◌ d s)) = ends_with_slash (String.◌∷◌ d s)

-- `s[:len(s)-1]`, where the last character is a slash
unfoldable pub without_last : String → String
without_last String.[] = ""
without_last (String.◌∷◌ c String.[]) = ""
without_last (String.◌∷◌ c (String.◌∷◌ d s)) =
    let rest = without_last (String.◌∷◌ d s) in String.◌∷◌ c rest

unfoldable pub trim_slash : String → Run String
unfolding ends_with_slash without_last
trim_slash s = ends_with_slash s >>= (λ slash. returns (if slash then without_last s else s))

unfoldable pub add_slash : String → Run String
unfolding ends_with_slash
add_slash s = ends_with_slash s >>= (λ slash. returns (if slash then s else s <+> "/"))

-- `s[n:]`, where all characters are of one byte
unfoldable pub slice_from : ℕ → String → Run String
slice_from zero s = returns s
slice_from (suc n) String.[] = panics
slice_from (suc n) (String.◌∷◌ c s) = slice_from n s

abbrev pub get_route : {B : Type 0} → List Segment → Handler B → Pattern × Handler B
get_route segments handler = (record { method = "GET"; segments = segments }, handler)

-- handlers.NotImplemented, which each server has for what no other route matches
unfoldable pub not_implemented : {B : Type 0} → Handler B
not_implemented r = returns (replies 501)

abbrev pub fallback : {B : Type 0} → Pattern × Handler B
fallback = (record { method = ""; segments = Segment.multi ∷ [] }, not_implemented)

-- The content type that is rewritten; a body of another type is an error.
abbrev pub if_type : {B : Type 0} → String → (B → Run (Option B)) → B → Incoming B → Run (Option B)
if_type wanted rewrite body resp =
    if get resp.header "Content-Type" == wanted then rewrite body else returns none
