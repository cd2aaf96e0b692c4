-- ===== src/Tests/Client.antt =====
-- The client with a small database, a clock that stands still and an upstream that is down.
use locaccel.Prelude.{
  ◌<◌, List, [], ◌∷◌, ◌++◌, none, some, true, false, length, keep_if, if◌then◌else◌, ◌≡◌, inr, refl,
}
use locaccel.Prelude.Int.{pos}
use locaccel.Prelude.Panic.{returns}
use locaccel.Database.{get as database_get}
use locaccel.Caching.Vary.{get_vary_header_names}
use locaccel.Http.Headers.{find, get}
use locaccel.Database.{save, Entry}
use locaccel.Client.{CachedResponse, CachedResponses, HttpRequest, Response, Body, build_key}
use locaccel.Client.Select.{
  is_usable, served, select_most_recent_candidates, serve_from_cache, select_response_candidates,
}
use locaccel.Client.Select.Recent.{latest_date, of_date, select_most_recent_candidates_lem}
use locaccel.Client.Select.Served.{
  Some, MayServe, first_served, latest_candidates, serve_from_cache_lem, serve_from_cache-MayServe,
}
use locaccel.Client.Forward.{Forwarded, forward_request}
use locaccel.Client.Forward.HopByHop.{IsClean, is_hop_by_hop, forward_request_lem}
use locaccel.Client.Ingest.{cached_response, on_ingest}
use locaccel.Client.Ingest.Replaced.{matching, others, without_first, select-on_ingest}
use locaccel.Client.Request.{do_request, respond}
use locaccel.Client.Request.Quiet.{IsQuiet}
use locaccel.Client.Request.Effects.{do_request-IsQuiet}
use locaccel.Client.Request.Outcomes.{stale_if_down}
use locaccel.Client.Forward.Down.{AreFor}
use locaccel.Client.Conditional.{add_conditional_request_information}
use locaccel.Tests.Store.{shelf_laws, same_laws}
use locaccel.Client.Revalidate.{refreshed, revalidated}
use locaccel.Tests.Fixtures.{
  dates, formatted_parses, env, req, long, short, gone, undated, now, is_f1, answered,
  long_is_served, short_is_not_fresh, short_is_stale, ok_answer, idle, pending, holding, busy,
  pooled, caches, other_key, of_db, aging,
}

select_most_recent_candidates_lem_example :
    select_most_recent_candidates dates (undated ∷ long ∷ short ∷ [])
    ≡ of_date dates
        (latest_date dates (pos 0) (undated ∷ long ∷ short ∷ []))
        (undated ∷ long ∷ short ∷ [])
select_most_recent_candidates_lem_example =
    select_most_recent_candidates_lem dates (undated ∷ long ∷ short ∷ [])

serve_from_cache_lem_example :
    serve_from_cache dates now is_f1 false req (undated ∷ gone ∷ long ∷ [])
    ≡ first_served dates now is_f1 false req (
        keep_if
          (is_usable dates now is_f1 false)
          (latest_candidates dates now is_f1 false req (undated ∷ gone ∷ long ∷ [])))
serve_from_cache_lem_example =
    serve_from_cache_lem dates now is_f1 false req (undated ∷ gone ∷ long ∷ [])

serve_from_cache-MayServe_example :
    Some (MayServe dates now is_f1 req answered) (undated ∷ gone ∷ long ∷ [])
serve_from_cache-MayServe_example =
    serve_from_cache-MayServe dates now is_f1 req (undated ∷ gone ∷ long ∷ []) answered
      long_is_served

forward_request_lem_example :
    (f : Forwarded) × (out : HttpRequest) × (forward_request (env ok_answer) req idle
      ≡ (returns (f, out), record idle { sent = idle.sent ++ out ∷ [] }))
    × (find out.header "Te" ≡ (if is_hop_by_hop "Te" then none else find req.header "Te"))
    × (out ≡ record req { header = out.header })
    × IsClean dates "Te" ok_answer f.response
forward_request_lem_example = forward_request_lem (env ok_answer) formatted_parses req idle "Te"

select-on_ingest_example :
    (stored : Entry CachedResponses) × (database_get
        (env none).badger
        (env none).codec
        (on_ingest (env none) pending "f1" now (holding (long ∷ []))).0
        "GET+/p"
        (record { value = []; version = 0 })
      ≡ (stored, none))
    × (0 < stored.version)
    × (select_response_candidates req stored.value
        ≡ cached_response (env none) pending "f1" now
          ∷ without_first (matching req.header (undated ∷ long ∷ [])))
    × (others req.header stored.value ≡ others req.header (undated ∷ long ∷ []))
unfolding on_ingest save get_vary_header_names
select-on_ingest_example =
    select-on_ingest (env none) (shelf_laws CachedResponses) (same_laws CachedResponses) pending
      "f1" now (holding (long ∷ [])) (on_ingest (env none) pending "f1" now (holding (long ∷ []))).0
      (record { value = []; version = 0 }) refl refl

do_request-IsQuiet_example :
    IsQuiet (env none) "HEAD+/p" 1 busy (do_request (env none) pooled req caches busy).1
do_request-IsQuiet_example =
    do_request-IsQuiet (env none) (shelf_laws CachedResponses) (same_laws CachedResponses) "HEAD+/p"
      pooled req caches busy other_key

stale_if_down_example :
    (tried : List HttpRequest) × (length tried ≡ 2)
    × AreFor caches.proxy
        (add_conditional_request_information dates req (short ∷ [])).0
        caches.uris
        tried
    × (do_request (env none) pooled req caches aging ≡ (
      returns (respond (served dates now is_f1 true short)),
      record aging { sent = [] ++ tried; notified = "hit" ∷ [] },
    ))
unfolding build_key database_get
stale_if_down_example =
    stale_if_down (env none) pooled req caches aging (of_db short) none
      (served dates now is_f1 true short) (λ n r. refl) refl refl (inr short_is_not_fresh) refl
      short_is_stale

abbrev tagged : CachedResponse
tagged = record long { headers = ("Etag", "\"e\"" ∷ []) ∷ ("Content-Length", "9" ∷ []) ∷ [] }

abbrev not_modified : Response
not_modified = record {
  status_code = 304;
  header = ("Etag", "W/\"e\"" ∷ []) ∷ ("Content-Length", "0" ∷ []) ∷ [];
  body = Body.upstream_body 0;
}

abbrev tagged_entry : Entry CachedResponses
tagged_entry = record { value = undated ∷ tagged ∷ []; version = 1 }

abbrev confirmed : Forwarded
confirmed = record {
  response = some not_modified;
  time_at_request_created = now;
  time_at_response_received = now;
}

abbrev refreshed_response : Response
refreshed_response =
    revalidated (env none) (refreshed (env none) confirmed not_modified now tagged) now
