-- ===== src/Http/Headers.antt =====
-- `http.Header`: a map from names to lists of values, as an association list whose names are
-- distinct. The methods are called with canonical names only, which they leave as they are.
use locaccel.Prelude.{
  String, List, [], ◌∷◌, Option, none, some, Bool, true, false, ◌≡◌, refl, arith, ◌==◌, eq_iff,
  if◌then◌else◌,
}

abbrev pub Header : Type 0
Header = List (String × List String)

-- `v, ok := h[name]`
unfoldable pub find : Header → String → Option (List String)
find [] name = none
find ((key, vs) ∷ h) name = if key == name then some vs else find h name

-- `h[name]`, where no value and a missing name read alike
unfoldable pub values : Header → String → List String
unfolding find
values h name = elim (find h name) [ none ↦ [] | some vs ↦ vs ]

-- `_, ok := h[name]`
unfoldable pub has : Header → String → Bool
unfolding find
has h name = elim (find h name) [ none ↦ false | some vs ↦ true ]

abbrev pub first_of_values : List String → String
first_of_values [] = ""
first_of_values (v ∷ vs) = v

-- `h.Get(name)`
unfoldable pub get : Header → String → String
unfolding values
get h name = first_of_values (values h name)

-- `h[name] = vs`
unfoldable pub put : Header → String → List String → Header
put [] name vs = (name, vs) ∷ []
put ((key, ws) ∷ h) name vs =
    let rest = put h name vs in if key == name then (name, vs) ∷ h else (key, ws) ∷ rest

-- `h.Set(name, v)`
abbrev pub set : Header → String → String → Header
set h name v = put h name (v ∷ [])

-- `h.Del(name)`
unfoldable pub del : Header → String → Header
del [] name = []
del ((key, vs) ∷ h) name = let rest = del h name in if key == name then rest else (key, vs) ∷ rest

pub find-put :
    (h : Header) (name : String) (vs : List String) (other : String)
    → find (put h name vs) other ≡ (if name == other then some vs else find h other)
unfolding find put
find-put [] name vs other = refl
find-put ((key, ws) ∷ h) name vs other =
    ground (arith, eq_iff key name, eq_iff name other, eq_iff key other, find-put h name vs other)

pub find-del :
    (h : Header) (name other : String)
    → find (del h name) other ≡ (if name == other then none else find h other)
unfolding find del
find-del [] name other = ground arith
find-del ((key, ws) ∷ h) name other =
    ground (arith, eq_iff key name, eq_iff name other, eq_iff key other, find-del h name other)

pub ruleset header_laws = (find-put, find-del)
