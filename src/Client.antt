-- ===== src/Client.antt =====
-- internal/httpclient/client.go and types.go: the caching HTTP client. This file has its data, what it
-- takes from outside, and its actions; each part of the client is a child.
pub mod Select
pub mod Conditional
pub mod Forward
pub mod Revalidate
pub mod Ingest
pub mod Request
use locaccel.Prelude.{
  ℕ, ◌+◌, String, List, [], ◌∷◌, ◌++◌, Option, none, some, Bool, true, false, length,
}
use locaccel.Prelude.Panic.{Run, returns, panics}
use locaccel.Prelude.Text.{◌<+>◌}
use locaccel.Http.{Time, HttpDates}
use locaccel.Http.Headers.{Header}
use locaccel.Database.{Badger, Codec, Entry}

pub record CachedResponse : Type 0 where
  pub content_hash : String
  pub status_code : ℕ
  pub headers : Header
  pub vary_headers : Header
  pub time_at_response_creation : Time

abbrev pub CachedResponses : Type 0
CachedResponses = List CachedResponse

-- The parts of a `url.URL` that are rewritten, and all else of it.
pub record Url : Type 0 where
  pub scheme : String
  pub host : String
  pub path : String
  pub rest : String

-- `proxy` is the value that the request's context carries for the transport.
pub record HttpRequest : Type 0 where
  pub method : String
  pub host : String
  pub url : Url
  pub header : Header
  pub proxy : Option Url

-- A body is known by where it is read from: the answer to the n-th request, or a file of the cache.
pub data Body : Type 0 where
  upstream_body : ℕ → Body
  file_body : String → Body

pub record Response : Type 0 where
  pub status_code : ℕ
  pub header : Header
  pub body : Body

pub record UpstreamCache : Type 0 where
  pub uris : List Url
  pub proxy : Bool

-- What came of the n-th request: the clock around it and behind it, and the answer or an error.
pub record Exchange : Type 0 where
  pub sent_at : Time
  pub received_at : Time
  pub checked_at : Time
  pub answer : Option (ℕ × Header)

-- What the client is given, and what is outside of it. `upstream` is indexed by the number of
-- requests that were sent before; so are the clock and the files, since both change meanwhile.
pub record Env : Type 1 where
  pub dates : HttpDates
  pub badger : Badger
  pub codec : Codec CachedResponses badger.Bytes
  pub url_string : Url → String
  pub is_private : Bool
  pub upstream : ℕ → HttpRequest → Exchange
  pub now : ℕ → Time
  pub has_file : ℕ → String → Bool

-- What `Do` changes: the database, the requests that went out, and the states it notified.
pub record World (Db : Type 0) : Type 0 where
  pub db : Db
  pub sent : List HttpRequest
  pub notified : List String

-- An action that may panic. What was written before a panic stays written.
abbrev pub Action : Type 0 → Type 0 → Type 0
Action Db A = World Db → Run A × World Db

module _ {Db A : Type 0} where
  abbrev pub pure : A → Action Db A
  pure a w = (returns a, w)

  abbrev pub panic : Action Db A
  panic w = (panics, w)

  abbrev pub lift : Run A → Action Db A
  lift r w = (r, w)

  abbrev pub gets : (World Db → A) → Action Db A
  gets f w = (returns (f w), w)

abbrev pub modify : {Db : Type 0} → (World Db → World Db) → Action Db (Unit {0})
modify f w = (returns tt, f w)

-- `c.notify(req, status)`
abbrev pub notify : {Db : Type 0} → String → Action Db (Unit {0})
notify status = modify (λ w. record w { notified = w.notified ++ status ∷ [] })

module _ {Db A B : Type 0} where
  abbrev continue : Run A → (A → Action Db B) → Action Db B
  continue (returns a) f w = f a w
  continue panics f w = (panics, w)

  infixl 5 ◌>>=◌ ◌>>◌
  abbrev pub ◌>>=◌ : Action Db A → (A → Action Db B) → Action Db B
  ◌>>=◌ m f w = let (r, w') = m w in continue r f w'

  abbrev pub ◌>>◌ : Action Db A → Action Db B → Action Db B
  m >> k = m >>= λ _. k

unfoldable pub build_key : (Url → String) → HttpRequest → String
build_key url_string req = req.method <+> "+" <+> url_string req.url
