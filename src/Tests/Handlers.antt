-- ===== src/Tests/Handlers.antt =====
-- A handler that modifies the bodies, with a toy compression.
use locaccel.Prelude.{
  ℕ, String, List, [], ◌∷◌, Option, none, some, false, length, ◌≡◌, ◌⊎◌, refl, sym, ap, arith,
}
use locaccel.Prelude.Text.Decimal.{itoa}
use locaccel.Http.Headers.{Header, find, get, has, put}
use locaccel.Handlers.{Incoming, Reply, decoded, modify_body}
use locaccel.Handlers.Replies.{modify_body-decoded}

abbrev gzip : List ℕ → Option (List ℕ)
gzip bytes = some (1 ∷ bytes)

abbrev gunzip : List ℕ → Option (List ℕ)
gunzip [] = none
gunzip (magic ∷ bytes) = some bytes

gunzip-gzip : (b z : List ℕ) → gzip b ≡ some z → gunzip z ≡ some b
gunzip-gzip b z h = let e : 1 ∷ b ≡ z = ground (arith, h) in ap gunzip (sym e)

abbrev doubled : List ℕ → Incoming (List ℕ) → Option (List ℕ)
doubled [] resp = none
doubled (x ∷ xs) resp = some (x ∷ x ∷ xs)

abbrev metadata : Incoming (List ℕ)
metadata = record {
  status_code = 200;
  header =
      ("Content-Encoding", "gzip" ∷ [])
      ∷ ("Content-Length", "3" ∷ [])
      ∷ ("Etag", "\"p\"" ∷ [])
      ∷ [];
  body = some (1 ∷ 7 ∷ 8 ∷ []);
}

abbrev rewritten : Incoming (List ℕ)
rewritten = record {
  status_code = 200;
  header =
      ("Content-Encoding", "gzip" ∷ [])
      ∷ ("Content-Length", "4" ∷ [])
      ∷ ("Etag", "\"p\"" ∷ [])
      ∷ [];
  body = some (1 ∷ 7 ∷ 7 ∷ 8 ∷ []);
}

abbrev content_length : String
content_length = "Content-Length"

modify_body-decoded_example :
    (content : List ℕ) × (changed : List ℕ) × (body : List ℕ) × (decoded gunzip gzip length metadata
      ≡ some content)
    × (doubled content metadata ≡ some changed)
    × (decoded gunzip gzip length rewritten ≡ some changed)
    × (rewritten.body ≡ some body)
    × (rewritten.status_code ≡ metadata.status_code)
    × ((has metadata.header "Content-Length" ≡ false)
        ⊎ (get rewritten.header "Content-Length" ≡ itoa (length body)))
    × ((content_length ≡ "Etag") ⊎ (find rewritten.header "Etag" ≡ find metadata.header "Etag"))
unfolding modify_body get itoa has put
modify_body-decoded_example =
    modify_body-decoded gunzip gzip length gunzip-gzip doubled metadata rewritten "Etag" refl

abbrev if_none_match : Header
if_none_match = ("If-None-Match", "\"o\"" ∷ "W/\"p\"" ∷ []) ∷ []

abbrev unchanged : Reply (List ℕ)
unchanged = record { status_code = 304; header = metadata.header; body = none }
