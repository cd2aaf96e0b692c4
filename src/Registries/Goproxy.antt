-- ===== src/Registries/Goproxy.antt =====
-- internal/handlers/goproxy/goproxy.go
use locaccel.Prelude.{String, List, [], ◌∷◌, none, false}
use locaccel.Prelude.Panic.{Run, returns, ◌>>=◌}
use locaccel.Prelude.Text.{◌<+>◌}
use locaccel.Http.Mux.{lit, multi, request_uri, Mux}
use locaccel.Client.{Url}
use locaccel.Registries.{Action, forwards, Handler, get_route, add_slash, slice_from}

module _ {B : Type 0} where
  abbrev pub call : String → List Url → Action B
  call upstream uris = forwards (record {
    upstream = upstream;
    modify = none;
    recovery = none;
    caches = record { uris = uris; proxy = false };
  })

  -- The list of the upstreams' sumdb stays empty: the copies that the loop makes are not kept.
  abbrev pub routes : String → String → List Url → Mux (Handler B)
  routes upstream sumdb upstream_caches =
      get_route (lit "sumdb" ∷ multi ∷ [])
        (λ r. slice_from 7 (request_uri r) >>= (λ rest. returns (call (sumdb <+> rest) [])))
      ∷ get_route (multi ∷ []) (λ r. returns (call (upstream <+> request_uri r) upstream_caches))
      ∷ []

  unfoldable pub register_handler : String → String → List Url → Run (Mux (Handler B))
  unfolding request_uri add_slash slice_from
  register_handler upstream sumdb upstream_caches =
      add_slash sumdb >>= (λ sumdb'. returns (routes upstream sumdb' upstream_caches))
