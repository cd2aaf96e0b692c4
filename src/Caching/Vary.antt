-- ===== src/Caching/Vary.antt =====
-- vary.go: which request headers a stored response depends on, and whether a request has them.
pub mod Matching
use locaccel.Prelude.{
  ℕ, String, List, [], ◌∷◌, ◌++◌, Option, none, some, Bool, true, false, not, ◌&&◌, ◌||◌, ◌==◌, eqb,
  if◌then◌else◌, map, keep_if, all, length, ◌≡◌, refl,
}
use locaccel.Prelude.Text.{split_seq, trim_space, is_empty, join}
use locaccel.Http.Headers.{Header, find, values, has, put, first_of_values}

abbrev pub fields_of : List String → List String
fields_of [] = []
fields_of (vary ∷ varys) = map trim_space (split_seq b',' vary) ++ fields_of varys

unfoldable pub get_vary_header_names : Header → List String
unfolding values split_seq trim_space
get_vary_header_names headers =
    keep_if (λ field. not (is_empty field)) (fields_of (values headers "Vary"))

-- The argument is the entry of a map: `none` is the nil slice of a missing name.
unfoldable pub normalize_vary_headers : Option (List String) → List String
unfolding join
normalize_vary_headers none = []
normalize_vary_headers (some (v ∷ [])) = v ∷ []
normalize_vary_headers (some vs) = join ", " vs ∷ []

-- what the entry of a name is in a request
unfoldable pub relevant : Header → String → List String
unfolding normalize_vary_headers find
relevant req_headers name = normalize_vary_headers (find req_headers name)

unfoldable pub extract_from : Header → List String → Header → Header
unfolding relevant put
extract_from req_headers [] acc = acc
extract_from req_headers (name ∷ names) acc =
    extract_from req_headers names (put acc name (relevant req_headers name))

unfoldable pub extract_vary_headers : Header → Header → Header
unfolding extract_from get_vary_header_names
extract_vary_headers req_headers resp_headers =
    extract_from req_headers (get_vary_header_names resp_headers) []

-- the body of the loop: equal lengths, and where there is one value, equal values
unfoldable pub same_values : List String → List String → Bool
same_values req_header header_value =
    eqb (length req_header) (length header_value)
    && (not (eqb (length req_header) 1)
        || first_of_values header_value == first_of_values req_header)

-- The loop goes over a map, in any order: it returns false for an entry that differs.
unfoldable pub match_vary_headers : Header → Header → Bool
unfolding relevant same_values has
match_vary_headers req_headers [] = true
match_vary_headers req_headers (entry ∷ vary_headers) =
    if has (entry ∷ vary_headers) "*"
    then false
    else all (λ e. same_values (relevant req_headers e.0) e.1) (entry ∷ vary_headers)

match_runs :
    match_vary_headers
      (("Accept", "a" ∷ "b" ∷ []) ∷ [])
      (extract_vary_headers (("Accept", "a, b" ∷ []) ∷ []) (("Vary", " Accept, ,Te" ∷ []) ∷ []))
    ≡ true
unfolding match_vary_headers extract_vary_headers
match_runs = refl
