-- ===== src/Middleware/Counted.antt =====
-- Every request is counted once.
use locaccel.Prelude.{
  ℕ, Char, ◌≤◌, length, String, List, [], ◌∷◌, ◌++◌, true, ◌≡◌, ◌≢◌, ◌⊎◌, refl, sym, ap, ◌∙◌, inl,
  inr, arith, eq_iff,
}
use mathlib.Core.Path.{subst}
use locaccel.Prelude.Int.{pos}
use locaccel.Prelude.Panic.{Run, returns}
use locaccel.Middleware.{Statistics, add_uint64, access, handle}
use locaccel.Database.{Entry}
use locaccel.Database.Laws.{BadgerLaws, CodecLaws}
use locaccel.Client.{CachedResponses, HttpRequest, UpstreamCache, Env, World, build_key}
use locaccel.Client.Request.{do_request}
use locaccel.Client.Request.Effects.{do_request-IsQuiet}
use locaccel.Client.Request.Quiet.{is_known, AreKnown}

-- The counters after a request of this size, by the states that the client notified for it: without
-- one it was not cacheable, and all else stays.
abbrev pub IsCounted : Statistics → ℕ → List String → Run Statistics → Type 0
IsCounted s size notified r =
    ((notified ≡ [])
      × (r
          ≡ returns (record s {
            un_cacheable = add_uint64 s.un_cacheable 1;
            bytes_served = add_uint64 s.bytes_served size;
            bytes_downloaded = add_uint64 s.bytes_downloaded size;
          })))
    ⊎ (((notified ≡ "hit" ∷ [])
          × (r
              ≡ returns (record s {
                cache_hits = add_uint64 s.cache_hits 1;
                bytes_served = add_uint64 s.bytes_served size;
              })))
        ⊎ (((notified ≡ "miss" ∷ [])
              × (r
                  ≡ returns (record s {
                    cache_misses = add_uint64 s.cache_misses 1;
                    bytes_served = add_uint64 s.bytes_served size;
                    bytes_downloaded = add_uint64 s.bytes_downloaded size;
                  })))
            ⊎ ((notified ≡ "revalidated" ∷ [])
                × (r
                    ≡ returns (record s {
                      revalidated = add_uint64 s.revalidated 1;
                      bytes_served = add_uint64 s.bytes_served size;
                    })))))

is_known-cases :
    (state : String)
    → is_known state ≡ true
    → (state ≡ "hit") ⊎ ((state ≡ "miss") ⊎ (state ≡ "revalidated"))
unfolding is_known
is_known-cases state h =
    ground (arith, eq_iff state "hit", eq_iff state "miss", eq_iff state "revalidated", h)

handle-IsCounted :
    (s : Statistics) (notified : List String) (size : ℕ)
    → length notified ≤ 1
    → AreKnown notified
    → IsCounted s size notified (handle s notified (pos size))
unfolding handle access
handle-IsCounted s [] size le k = inl (refl, refl)
handle-IsCounted s (state ∷ []) size le (k, rest) = elim (is_known-cases state k) [
  | inl e ↦ rw e (inr (inl (refl, refl)))
  | inr (inl e) ↦ rw e (inr (inr (inl (refl, refl))))
  | inr (inr e) ↦ rw e (inr (inr (inr (refl, refl))))
]
handle-IsCounted s (state ∷ other ∷ more) size le k = absurd (omega arith)

-- Another key than this one.
ne-cons : (s : String) (c : Char) → s ≢ String.◌∷◌ c s
ne-cons String.[] c e = cc
ne-cons (String.◌∷◌ d s) c e = ne-cons s d (cc)

module _ (env : Env) (laws : BadgerLaws env.badger) (codec_laws : CodecLaws env.codec) where
  -- A request whose handler runs `Do`, whatever the database and the upstream do, is counted once when
  -- its reply, of any size, is logged: the access log does not panic over an unexpected state. If no
  -- state was notified, the counter of what is not cacheable goes up by one, and with the one state
  -- that was, that of the hits, the misses or the revalidated; the bytes served go up by the size, and so do
  -- the bytes downloaded, but for a hit and a revalidated one; all else stays. The counters are uint64
  -- and wrap.
  pub handle-do_request :
      (pooled : Entry CachedResponses) (req : HttpRequest) (cache : UpstreamCache)
      (w : World env.badger.Db) (s : Statistics) (size : ℕ)
      → w.notified ≡ []
      → IsCounted s size
          (do_request env pooled req cache w).1.notified
          (handle s (do_request env pooled req cache w).1.notified (pos size))
  handle-do_request pooled req cache w s size e =
      let key = build_key env.url_string req in
      let (statuses, q, le, at, known) =
        do_request-IsQuiet env laws codec_laws (String.◌∷◌ "/" key) pooled req cache w
          (ne-cons key "/") in
      subst (λ l. IsCounted s size l (handle s l (pos size))) (sym (q ∙ ap (λ l. l ++ statuses) e))
        (handle-IsCounted s statuses size le known)
