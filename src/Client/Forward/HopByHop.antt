-- ===== src/Client/Forward/HopByHop.antt =====
-- What `removeHopByHopHeaders` and `forwardRequest` do to the headers of a request and of its answer.
use locaccel.Prelude.{
  ℕ, String, List, [], ◌∷◌, ◌++◌, length, Option, none, some, Bool, true, false, if◌then◌else◌, any,
  arith, ◌≡◌, ◌≢◌, refl, sym, ap, ◌==◌, ◌||◌, eq_iff, eq_refl, ◌⊎◌, inl, inr, Option-cases,
  Bool-cases, ◌∙◌,
}
use locaccel.Prelude.Panic.{returns}
use locaccel.Http.{Time, HttpDates}
use locaccel.Http.Headers.{Header, find, values, get, put, del, find-del, find-put}
use locaccel.Client.{HttpRequest, Response, Env, World, Exchange}
use locaccel.Client.Forward.{
  hop_by_hop, del_all, remove_hop_by_hop_headers, with_valid_date, Forwarded, forward_request,
  received,
}

-- The fields of a connection: those of RFC 9110, 7.6.1, and those for a proxy.
abbrev pub is_hop_by_hop : String → Bool
is_hop_by_hop name =
    name == "Connection"
    || name == "Proxy-Connection"
    || name == "Keep-Alive"
    || name == "Te"
    || name == "Trailer"
    || name == "Transfer-Encoding"
    || name == "Upgrade"
    || name == "Proxy-Authenticate"
    || name == "Proxy-Authentication-Info"
    || name == "Proxy-Authorization"

eq_swap : (s t : String) → (s == t) ≡ (t == s)
eq_swap s t = elim (Bool-cases (s == t)) [
  | inl e ↦ ground (arith, e, (eq_iff s t).0 e, (eq_iff t s).1)
  | inr e ↦ elim (Bool-cases (t == s)) [
    | inl f ↦ ground (arith, e, f, (eq_iff t s).0 f, (eq_iff s t).1)
    | inr f ↦ e ∙ sym f
  ]
]

any_hop : (name : String) → any (λ h. h == name) hop_by_hop ≡ is_hop_by_hop name
any_hop name =
    rw
      (
        eq_swap "Connection" name,
        eq_swap "Proxy-Connection" name,
        eq_swap "Keep-Alive" name,
        eq_swap "Te" name,
        eq_swap "Trailer" name,
        eq_swap "Transfer-Encoding" name,
        eq_swap "Upgrade" name,
        eq_swap "Proxy-Authenticate" name,
        eq_swap "Proxy-Authentication-Info" name,
        eq_swap "Proxy-Authorization" name,
      )
      (ground arith)

find-del_all :
    (names : List String) (headers : Header) (name : String)
    → find (del_all names headers) name
      ≡ (if any (λ n. n == name) names then none else find headers name)
unfolding del_all
find-del_all [] headers name = refl
find-del_all (n ∷ names) headers name =
    ground (arith, find-del_all names (del headers n) name, find-del headers n name)

-- None of the names is left, and what every other name has is as it was.
pub remove_hop_by_hop_headers_lem :
    (headers : Header) (name : String)
    → find (remove_hop_by_hop_headers headers) name
      ≡ (if is_hop_by_hop name then none else find headers name)
unfolding remove_hop_by_hop_headers
remove_hop_by_hop_headers_lem headers name =
    find-del_all hop_by_hop headers name
    ∙ ap (λ b. if b then none else find headers name) (any_hop name)

get-put_self : (h : Header) (name v : String) → get (put h name (v ∷ [])) name ≡ v
unfolding get values
get-put_self h name v =
    let put_find = find-put h name (v ∷ []) name in ground (arith, put_find, eq_refl name)

with_valid_date_cases :
    (dates : HttpDates) (t : Time) (h : Header)
    → (with_valid_date dates t h ≡ put h "Date" (dates.format_time t ∷ []))
      ⊎ ((with_valid_date dates t h ≡ h) × (dates.parse_time (get h "Date") ≢ none))
unfolding with_valid_date
with_valid_date_cases dates t h = elim (Option-cases (dates.parse_time (get h "Date"))) [
  | inl p ↦ inl (rw (with_valid_date, p) refl)
  | inr (u, p) ↦ inr (rw (with_valid_date, p) refl, λ e. absurd (ground (arith, e, p)))
]

with_valid_date_parses :
    (dates : HttpDates)
    → ((t : Time) → dates.parse_time (dates.format_time t) ≢ none)
    → (t : Time) (h : Header) → dates.parse_time (get (with_valid_date dates t h) "Date") ≢ none
with_valid_date_parses dates law t h e = elim (with_valid_date_cases dates t h) [
  | inl p ↦ law t (
      sym (
        ap dates.parse_time
          (ap (λ h. get h "Date") p ∙ get-put_self h "Date" (dates.format_time t)))
      ∙ e)
  | inr (p, q) ↦ q (sym (ap (λ h. dates.parse_time (get h "Date")) p) ∙ e)
]

-- Setting the Date leaves what another name has alone.
find-with_valid_date :
    (dates : HttpDates) (t : Time) (h : Header) (name : String)
    → ("Date" == name) ≡ false
    → find (with_valid_date dates t h) name ≡ find h name
find-with_valid_date dates t h name ne = elim (with_valid_date_cases dates t h) [
  | inl p ↦
      ap (λ h. find h name) p
      ∙ find-put h "Date" (dates.format_time t ∷ []) name
      ∙ ap (λ b. if b then some (dates.format_time t ∷ []) else find h name) ne
  | inr (p, q) ↦ ap (λ h. find h name) p
]

Date_not_hop : (name : String) → is_hop_by_hop name ≡ true → ("Date" == name) ≡ false
Date_not_hop name h = elim (Bool-cases ("Date" == name)) [
  | inl e ↦
      let date : is_hop_by_hop "Date" ≡ true = ap is_hop_by_hop ((eq_iff "Date" name).0 e) ∙ h in
      absurd (ground (arith, date))
  | inr e ↦ e
]

-- The headers of an answer, if there is one: the Date parses, and the name has nothing if it is one
-- of the ten, what it has in `sent` if it is neither one of them nor the Date.
abbrev pub IsClean : HttpDates → String → Option (ℕ × Header) → Option Response → Type 0
IsClean dates name (some (status_code, sent)) (some r) =
    (r.status_code ≡ status_code)
    × (dates.parse_time (get r.header "Date") ≢ none)
    × (("Date" ≡ name)
        ⊎ (find r.header name ≡ (if is_hop_by_hop name then none else find sent name)))
IsClean dates name none none = Unit
IsClean dates name answer response = ⊥

cleaned :
    (env : Env)
    → ((t : Time) → env.dates.parse_time (env.dates.format_time t) ≢ none)
    → (n : ℕ) (exchange : Exchange) (answer : Option (ℕ × Header)) (name : String)
    → IsClean env.dates name answer (received env n exchange answer)
cleaned env law n exchange none name = tt
cleaned env law n exchange (some (status_code, header)) name =
    let clean = remove_hop_by_hop_headers header in
    (
      refl,
      with_valid_date_parses env.dates law exchange.checked_at clean,
      elim (Bool-cases ("Date" == name)) [
        | inl e ↦ inl ((eq_iff "Date" name).0 e)
        | inr e ↦ inr (
            find-with_valid_date env.dates exchange.checked_at clean name e
            ∙ remove_hop_by_hop_headers_lem header name)
      ],
    )

-- Forwarding sends one request, which has none of the ten hop-by-hop names that is_hop_by_hop has,
-- and is else as it was,
-- and writes nothing. The answer is that of the upstream to this request, with the same status: its
-- headers have none of the ten names, a Date that parses, and are else as they came. It is assumed
-- that a time that was formatted parses.
pub forward_request_lem :
    (env : Env)
    → ((t : Time) → env.dates.parse_time (env.dates.format_time t) ≢ none)
    → (req : HttpRequest) (w : World env.badger.Db) (name : String)
    → (f : Forwarded) × (out : HttpRequest) × (forward_request env req w
        ≡ (returns (f, out), record w { sent = w.sent ++ out ∷ [] }))
      × (find out.header name ≡ (if is_hop_by_hop name then none else find req.header name))
      × (out ≡ record req { header = out.header })
      × IsClean env.dates name (env.upstream (length w.sent) out).answer f.response
unfolding forward_request
forward_request_lem env law req w name =
    let out : HttpRequest = record req { header = remove_hop_by_hop_headers req.header } in
    let exchange = env.upstream (length w.sent) out in
    (
      _,
      out,
      refl,
      remove_hop_by_hop_headers_lem req.header name,
      refl,
      cleaned env law (length w.sent) exchange exchange.answer name,
    )
