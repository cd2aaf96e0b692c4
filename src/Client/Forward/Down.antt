-- ===== src/Client/Forward/Down.antt =====
-- `forwardRequestWithUpstream` when no upstream answers.
use locaccel.Prelude.{
  ℕ, ◌+◌, List, [], ◌∷◌, ◌++◌, none, some, Bool, true, false, length, arith, ◌≡◌, refl, ap, ◌∙◌,
  append_assoc,
}
use locaccel.Prelude.Panic.{Run, returns}
use locaccel.Prelude.Text.{◌<+>◌}
use locaccel.Client.{Url, HttpRequest, UpstreamCache, Env, World, ◌>>=◌}
use locaccel.Client.Forward.{
  remove_hop_by_hop_headers, Forwarded, forward_request, received, or_next, build_upstream_request,
  try_upstreams, forward_request_with_upstream,
}

-- No request gets an answer.
abbrev pub IsDown : Env → Type 0
IsDown env = (n : ℕ) (req : HttpRequest) → (env.upstream n req).answer ≡ none

abbrev pub without_hop_by_hop : HttpRequest → HttpRequest
without_hop_by_hop req = record req { header = remove_hop_by_hop_headers req.header }

-- The request as it goes to an upstream cache: the cache is its proxy, or its URL is moved to the cache.
abbrev pub IsFor : Bool → HttpRequest → Url → HttpRequest → Type 0
IsFor true req upstream out =
    out ≡ record req { proxy = some upstream; header = remove_hop_by_hop_headers req.header }
IsFor false req upstream out = out ≡ record req {
  host = upstream.host;
  url = record (req.url) {
    scheme = upstream.scheme;
    host = upstream.host;
    path = upstream.path <+> req.url.path;
  };
  header = remove_hop_by_hop_headers req.header;
}

-- A request for each of the upstream caches, in order, and at the end the request itself.
abbrev pub AreFor : Bool → HttpRequest → List Url → List HttpRequest → Type 0
AreFor proxy req [] [] = ⊥
AreFor proxy req [] (out ∷ []) = out ≡ without_hop_by_hop req
AreFor proxy req [] (out ∷ other ∷ outs) = ⊥
AreFor proxy req (upstream ∷ uris) [] = ⊥
AreFor proxy req (upstream ∷ uris) (out ∷ outs) =
    IsFor proxy req upstream out × AreFor proxy req uris outs

build_upstream_request-IsFor :
    (proxy : Bool) (req : HttpRequest) (upstream : Url)
    → IsFor proxy req upstream (without_hop_by_hop (build_upstream_request proxy req upstream))
unfolding build_upstream_request
build_upstream_request-IsFor true req upstream = refl
build_upstream_request-IsFor false req upstream = refl

-- The run failed, with the request `out`, after it sent `tried`.
abbrev pub Failed :
    {Db : Type 0}
    → World Db
    → HttpRequest
    → List HttpRequest
    → Run (Forwarded × HttpRequest) × World Db
    → Type 0
Failed w out tried result =
    (f : Forwarded) × (f.response ≡ none)
    × (result ≡ (returns (f, out), record w { sent = w.sent ++ tried }))

module _ (env : Env) (down : IsDown env) where
  forward_request-Failed :
      (req : HttpRequest) (w : World env.badger.Db)
      → Failed w (without_hop_by_hop req) (without_hop_by_hop req ∷ []) (forward_request env req w)
  unfolding forward_request
  forward_request-Failed req w =
      let n = length w.sent in
      let exchange = env.upstream n (without_hop_by_hop req) in
      (
        record {
          response = received env n exchange exchange.answer;
          time_at_request_created = exchange.sent_at;
          time_at_response_received = exchange.received_at;
        },
        ap (received env n exchange) (down n (without_hop_by_hop req)),
        refl,
      )

  module _ (proxy : Bool) (req : HttpRequest) where
    abbrev Tries : List Url → World env.badger.Db → Type 0
    Tries uris w =
        (tried : List HttpRequest) × (length tried ≡ length uris + 1)
        × AreFor proxy req uris tried
        × Failed w (without_hop_by_hop req) tried (try_upstreams env proxy req uris w)

    next_after :
        (f : Forwarded) (copy : HttpRequest) (uris : List Url) (w' : World env.badger.Db)
        → f.response ≡ none
        → or_next env proxy req (try_upstreams env proxy req uris) (f, copy) w'
          ≡ try_upstreams env proxy req uris w'
    next_after f copy uris w' e = rw e refl

    try_upstreams-Failed : (uris : List Url) (w : World env.badger.Db) → Tries uris w
    unfolding try_upstreams
    try_upstreams-Failed [] w =
        (without_hop_by_hop req ∷ [], omega arith, refl, forward_request-Failed req w)
    try_upstreams-Failed (upstream ∷ uris) w =
        let copy = build_upstream_request proxy req upstream in
        let out = without_hop_by_hop copy in
        let (f, none_f, e) = forward_request-Failed copy w in
        let w' = record w { sent = w.sent ++ out ∷ [] } in
        let (tried, len, are, (g, none_g, e')) = try_upstreams-Failed uris w' in
        (
          out ∷ tried,
          omega (arith, len),
          (build_upstream_request-IsFor proxy req upstream, are),
          (
            g,
            none_g,
            (ap (λ r. ((λ v. r) >>= or_next env proxy req (try_upstreams env proxy req uris)) w) e
                ∙ next_after f out uris w' none_f
                ∙ e'
                ∙ ap (λ sent. (returns (g, without_hop_by_hop req), record w { sent = sent }))
                    (append_assoc w.sent (out ∷ []) tried)),
          ),
        )

-- Without an answer to any request, each upstream cache and then the origin is asked, and the
-- outcome is an error, with the request that went to the origin.
pub forward_request_with_upstream-Failed :
    (env : Env)
    → IsDown env
    → (req : HttpRequest) (cache : UpstreamCache) (w : World env.badger.Db)
    → (tried : List HttpRequest) × (length tried ≡ length cache.uris + 1)
      × AreFor cache.proxy req cache.uris tried
      × Failed w (without_hop_by_hop req) tried (forward_request_with_upstream env req cache w)
unfolding forward_request_with_upstream
forward_request_with_upstream-Failed env down req cache w =
    try_upstreams-Failed env down cache.proxy req cache.uris w
