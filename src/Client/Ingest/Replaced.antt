-- ===== src/Client/Ingest/Replaced.antt =====
-- What a stored response replaces, and that the request which it answers finds it.
use locaccel.Prelude.{
  ℕ, ◌<◌, String, List, [], ◌∷◌, none, Bool, true, false, not, eqb, any, All, keep_if,
  if◌then◌else◌, arith, ◌≡◌, refl, sym, ◌∙◌, ◌==◌, Bool-cases, inl, inr,
}
use locaccel.Http.{Time}
use locaccel.Http.Headers.{Header}
use locaccel.Caching.Vary.{get_vary_header_names, extract_vary_headers, match_vary_headers}
use locaccel.Caching.Vary.Matching.{Agree, match-extract}
use locaccel.Database.{Entry, get, save, new}
use locaccel.Database.Laws.{BadgerLaws, CodecLaws}
use locaccel.Database.Versions.{get-save}
use locaccel.Client.{CachedResponse, CachedResponses, Env}
use locaccel.Client.Select.{select_response_candidates}
use locaccel.Client.Ingest.{Pending, replace_or_append, cached_response, on_ingest}

abbrev pub without_first : CachedResponses → CachedResponses
without_first [] = []
without_first (c ∷ cs) = cs

abbrev pub matching : Header → CachedResponses → CachedResponses
matching h cs = keep_if (λ c. match_vary_headers h c.vary_headers) cs

abbrev pub others : Header → CachedResponses → CachedResponses
others h cs = keep_if (λ c. not (match_vary_headers h c.vary_headers)) cs

-- A response that matches the headers takes the place of the first that does, or comes last; the
-- others that match stay, in their order, and so do those that do not.
pub replace_or_append_lem :
    (h : Header) (cr : CachedResponse) (cs : CachedResponses)
    → match_vary_headers h cr.vary_headers ≡ true
    → (matching h (replace_or_append h cr cs) ≡ cr ∷ without_first (matching h cs))
      × (others h (replace_or_append h cr cs) ≡ others h cs)
unfolding replace_or_append
replace_or_append_lem h cr [] m = (ground (arith, m), ground (arith, m))
replace_or_append_lem h cr (c ∷ cs) m =
    let (ih, ih') = replace_or_append_lem h cr cs m in
    elim (Bool-cases (match_vary_headers h c.vary_headers)) [
      | inl e ↦ (ground (arith, e, m), ground (arith, e, m))
      | inr e ↦ (ground (arith, e, ih), ground (arith, e, ih'))
    ]

All-Agree_self : (req : Header) (names : List String) → All (Agree req req) names
All-Agree_self req [] = tt
All-Agree_self req (n ∷ names) = (refl, All-Agree_self req names)

-- A request matches what it left with the response, unless that varies on everything.
match-extract_self :
    (req resp : Header)
    → any (λ name. name == "*") (get_vary_header_names resp) ≡ false
    → match_vary_headers req (extract_vary_headers req resp) ≡ true
match-extract_self req resp h =
    (match-extract req req resp).1 (h, All-Agree_self req (get_vary_header_names resp))

-- the responses that were stored when the request was made
abbrev pub before : Pending → CachedResponses
before p = if not (eqb p.db_entry.version 0) then p.db_entry.value else []

module _ (env : Env) (laws : BadgerLaws env.badger) (codec_laws : CodecLaws env.codec) where
  saved_if :
      (is_new : Bool) (p : Pending) (cr : CachedResponse) (db : env.badger.Db)
      → (version : ℕ) × ((if not is_new
            then save env.badger env.codec db p.cache_key
                (record (p.db_entry) { value = replace_or_append p.req.header cr p.db_entry.value })
            else new env.badger env.codec db p.cache_key (cr ∷ []))
          ≡ save env.badger env.codec db p.cache_key (record {
            value = replace_or_append p.req.header cr (if not is_new then p.db_entry.value else []);
            version = version;
          }))
  unfolding new replace_or_append
  saved_if true p cr db = (0, refl)
  saved_if false p cr db = (p.db_entry.version, refl)

  on_ingest-save :
      (p : Pending) (hash : String) (now : Time) (db : env.badger.Db)
      → (version : ℕ) × (on_ingest env p hash now db
          ≡ save env.badger env.codec db p.cache_key (record {
            value = replace_or_append p.req.header (cached_response env p hash now) (before p);
            version = version;
          }))
  unfolding on_ingest
  on_ingest-save p hash now db =
      saved_if (eqb p.db_entry.version 0) p (cached_response env p hash now) db

  -- A response that was stored without an error is there for the next request of its kind: under its
  -- key the database has a value in which it is the first of the responses that match the request
  -- which it answers. It has replaced at most one of those that matched, and those that do not
  -- match the request are as they were. This is so unless the response varies on everything.
  pub select-on_ingest :
      (p : Pending) (hash : String) (now : Time) (db db' : env.badger.Db)
      (into : Entry CachedResponses)
      → any (λ name. name == "*") (get_vary_header_names p.resp.header) ≡ false
      → on_ingest env p hash now db ≡ (db', none)
      → (stored : Entry CachedResponses) × (get env.badger env.codec db' p.cache_key into
          ≡ (stored, none))
        × (0 < stored.version)
        × (select_response_candidates p.req stored.value
            ≡ cached_response env p hash now ∷ without_first (matching p.req.header (before p)))
        × (others p.req.header stored.value ≡ others p.req.header (before p))
  unfolding select_response_candidates cached_response
  select-on_ingest p hash now db db' into star h =
      let cr = cached_response env p hash now in
      let (version, e) = on_ingest-save p hash now db in
      let m = match-extract_self p.req.header p.resp.header star in
      let (chosen, rest) = replace_or_append_lem p.req.header cr (before p) m in
      let (found, (v, at, pos, newer)) =
        get-save env.badger env.codec laws codec_laws db db' p.cache_key _ into (sym e ∙ h) in
      (_, at, pos, chosen, rest)
