-- ===== src/Client/Forward.antt =====
-- `forwardRequest` and `forwardRequestWithUpstream`: sending a request on.
pub mod HopByHop
pub mod Down
use locaccel.Prelude.{
  ℕ, String, List, [], ◌∷◌, ◌++◌, Option, none, some, Bool, true, false, length, if◌then◌else◌,
}
use locaccel.Prelude.Panic.{returns}
use locaccel.Prelude.Text.{◌<+>◌}
use locaccel.Http.{Time, HttpDates}
use locaccel.Http.Headers.{Header, get, set, del}
use locaccel.Client.{
  Url, HttpRequest, Response, UpstreamCache, Exchange, Env, World, Action, upstream_body, ◌>>=◌,
}

abbrev pub hop_by_hop : List String
hop_by_hop =
    "Connection" ∷ "Proxy-Connection" ∷ "Keep-Alive" ∷ "Te" ∷ "Trailer" ∷ "Transfer-Encoding"
    ∷ "Upgrade" ∷ "Proxy-Authenticate" ∷ "Proxy-Authentication-Info" ∷ "Proxy-Authorization" ∷ []

unfoldable pub del_all : List String → Header → Header
del_all [] headers = headers
del_all (name ∷ names) headers = del_all names (del headers name)

unfoldable pub remove_hop_by_hop_headers : Header → Header
unfolding del_all
remove_hop_by_hop_headers headers = del_all hop_by_hop headers

-- A Date that does not parse is replaced by the time of the check.
unfoldable pub with_valid_date : HttpDates → Time → Header → Header
with_valid_date dates checked_at header = elim (dates.parse_time (get header "Date")) [
  | none ↦ set header "Date" (dates.format_time checked_at)
  | some t ↦ header
]

-- The answer to a request, none for an error, with the times around it.
pub record Forwarded : Type 0 where
  pub response : Option Response
  pub time_at_request_created : Time
  pub time_at_response_received : Time

module _ (env : Env) where
  abbrev pub received : ℕ → Exchange → Option (ℕ × Header) → Option Response
  received n exchange none = none
  received n exchange (some (status_code, header)) = some (record {
    status_code = status_code;
    header = with_valid_date env.dates exchange.checked_at (remove_hop_by_hop_headers header);
    body = upstream_body n;
  })

  -- The header of the request is changed in place: the request comes back too.
  unfoldable pub forward_request : HttpRequest → Action env.badger.Db (Forwarded × HttpRequest)
  unfolding remove_hop_by_hop_headers with_valid_date
  forward_request req w =
      let out = record req { header = remove_hop_by_hop_headers req.header } in
      let n = length w.sent in
      let exchange = env.upstream n out in
      (
        returns (
          record {
            response = received n exchange exchange.answer;
            time_at_request_created = exchange.sent_at;
            time_at_response_received = exchange.received_at;
          },
          out,
        ),
        record w { sent = w.sent ++ out ∷ [] },
      )

-- A copy of the request for an upstream cache.
unfoldable pub build_upstream_request : Bool → HttpRequest → Url → HttpRequest
build_upstream_request true r upstream = record r { proxy = some upstream }
build_upstream_request false r upstream = record r {
  host = upstream.host;
  url = record (r.url) {
    scheme = upstream.scheme;
    host = upstream.host;
    path = upstream.path <+> r.url.path;
  };
}

module _ (env : Env) (proxy : Bool) (req : HttpRequest) where
  abbrev pub or_next :
      Action env.badger.Db (Forwarded × HttpRequest)
      → Forwarded × HttpRequest
      → Action env.badger.Db (Forwarded × HttpRequest)
  or_next next (f, copy) w = elim f.response [ none ↦ next w | some resp ↦ (returns (f, req), w) ]

  -- The upstream caches in order, and the origin if each of them failed. Only the last changes the
  -- request itself.
  unfoldable pub try_upstreams : List Url → Action env.badger.Db (Forwarded × HttpRequest)
  unfolding forward_request build_upstream_request
  try_upstreams [] w = forward_request env req w
  try_upstreams (upstream ∷ uris) w =
      (forward_request env (build_upstream_request proxy req upstream)
          >>= or_next (try_upstreams uris))
        w

unfoldable pub forward_request_with_upstream :
    (env : Env) → HttpRequest → UpstreamCache → Action env.badger.Db (Forwarded × HttpRequest)
unfolding try_upstreams
forward_request_with_upstream env req cache = try_upstreams env cache.proxy req cache.uris
