-- ===== src/Http/Mux.antt =====
-- `http.ServeMux`, as the handlers use it: patterns with a method and a path, of which the most
-- specific one that matches is taken. A request's path is clean: one that is not is redirected
-- before a handler sees it.
pub mod Paths
use locaccel.Prelude.{
  ℕ, code, String, List, [], ◌∷◌, Option, none, some, Bool, true, false, not, ◌&&◌, ◌||◌, ◌==◌,
  if◌then◌else◌,
}
use locaccel.Prelude.Text.{◌<+>◌, is_empty, split_seq, join}

-- A literal segment, `{name}`, and `{name...}` or a trailing slash.
pub data Segment : Type 0 where
  lit : String → Segment
  wild multi : Segment

-- A pattern with no method has an empty one.
pub record Pattern : Type 0 where
  pub method : String
  pub segments : List Segment

-- A request as a handler has it: the path and the query are as they stand in the URL, escaped.
pub record ServerRequest : Type 0 where
  pub method : String
  pub host : String
  pub path : String
  pub raw_query : String

-- The text behind the first slash of a path.
unfoldable pub without_slash : String → String
without_slash String.[] = ""
without_slash (String.◌∷◌ c s) = s

unfoldable pub parts : String → List String
unfolding without_slash
parts path = split_seq b'/' (without_slash path)

-- `r.URL.RequestURI()`
unfoldable pub request_uri : ServerRequest → String
request_uri r = if is_empty r.raw_query then r.path else r.path <+> "?" <+> r.raw_query

-- A GET route serves HEAD too.
unfoldable pub allows : String → String → Bool
allows wanted method = is_empty wanted || wanted == method || (wanted == "GET" && method == "HEAD")

-- `url.PathUnescape`, which leaves a text as it is that it cannot read.
module _ (unescape : String → String) where
  unfoldable pub fits : List Segment → List String → Bool
  fits [] [] = true
  fits [] (p ∷ ps) = false
  fits (lit s ∷ ss) [] = false
  fits (lit s ∷ ss) (p ∷ ps) = unescape p == s && fits ss ps
  fits (wild ∷ ss) [] = false
  fits (wild ∷ ss) (p ∷ ps) = not (is_empty p) && fits ss ps
  fits (multi ∷ ss) [] = false
  fits (multi ∷ ss) (p ∷ ps) = true

  -- `r.PathValue` of the `{name...}` of a pattern
  unfoldable pub path_value : List Segment → List String → String
  path_value [] ps = ""
  path_value (s ∷ ss) [] = ""
  path_value (lit s ∷ ss) (p ∷ ps) = path_value ss ps
  path_value (wild ∷ ss) (p ∷ ps) = path_value ss ps
  path_value (multi ∷ ss) (p ∷ ps) = unescape (join "/" (p ∷ ps))

  unfoldable pub accepts : Pattern → ServerRequest → Bool
  unfolding fits allows parts
  accepts p r = allows p.method r.method && fits p.segments (parts r.path)

-- Of two patterns that match one path, the first that is narrower: a literal is narrower than a
-- wildcard, and this than the rest of the path.
unfoldable pub narrower : List Segment → List Segment → Bool
narrower [] ts = false
narrower (s ∷ ss) [] = false
narrower (lit s ∷ ss) (lit t ∷ ts) = narrower ss ts
narrower (lit s ∷ ss) (wild ∷ ts) = true
narrower (lit s ∷ ss) (multi ∷ ts) = true
narrower (wild ∷ ss) (lit t ∷ ts) = false
narrower (wild ∷ ss) (wild ∷ ts) = narrower ss ts
narrower (wild ∷ ss) (multi ∷ ts) = true
narrower (multi ∷ ss) (t ∷ ts) = false

-- With like segments, the pattern with a method is the narrower one.
unfoldable pub same_segments : List Segment → List Segment → Bool
same_segments [] [] = true
same_segments [] (t ∷ ts) = false
same_segments (s ∷ ss) [] = false
same_segments (lit s ∷ ss) (lit t ∷ ts) = same_segments ss ts
same_segments (lit s ∷ ss) (wild ∷ ts) = false
same_segments (lit s ∷ ss) (multi ∷ ts) = false
same_segments (wild ∷ ss) (lit t ∷ ts) = false
same_segments (wild ∷ ss) (wild ∷ ts) = same_segments ss ts
same_segments (wild ∷ ss) (multi ∷ ts) = false
same_segments (multi ∷ ss) (lit t ∷ ts) = false
same_segments (multi ∷ ss) (wild ∷ ts) = false
same_segments (multi ∷ ss) (multi ∷ ts) = true

unfoldable pub more_specific : Pattern → Pattern → Bool
unfolding narrower same_segments
more_specific p q =
    narrower p.segments q.segments
    || (same_segments p.segments q.segments && not (is_empty p.method) && is_empty q.method)

-- The route of a pattern, with what it serves.
abbrev pub Mux : Type 0 → Type 0
Mux H = List (Pattern × H)

module _ {H : Type 0} where
  abbrev pub better : Pattern × H → Option (Pattern × H) → Pattern × H
  better route none = route
  better route (some other) = if more_specific other.0 route.0 then other else route

  -- The route that a request takes, none for an answer that the multiplexer itself writes.
  unfoldable pub dispatch : (String → String) → Mux H → ServerRequest → Option (Pattern × H)
  unfolding accepts
  dispatch unescape [] r = none
  dispatch unescape ((p, h) ∷ routes) r =
      let rest = dispatch unescape routes r in
      if accepts unescape p r then some (better (p, h) rest) else rest
