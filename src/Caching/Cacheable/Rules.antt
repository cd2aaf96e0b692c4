-- ===== src/Caching/Cacheable/Rules.antt =====
-- The decision as a list of conditions.
use locaccel.Prelude.{ℕ, Bool, true, false, ◌≡◌, ◌≢◌, ◌⊎◌, ◌↔◌, arith}
use locaccel.Prelude.Int.{pos}
use locaccel.Prelude.Text.{is_empty}
use locaccel.Http.{HttpDates}
use locaccel.Http.Headers.{Header, get, has, values}
use locaccel.Caching.CacheControl.{CacheControlResponseDirective, parse_cache_control_directive}
use locaccel.Caching.Cacheable.{is_some, status_ok, decide_cacheable, is_cacheable}

module _ (dates : HttpDates) (status_code : ℕ) (header : Header) (is_private : Bool) where
  -- Something in the response lets it be stored.
  abbrev pub HasPermission : CacheControlResponseDirective → Type 0
  HasPermission cc =
      (cc.private ≡ true)
      ⊎ ((cc.public ≡ true)
          ⊎ ((cc.max_age ≢ pos 0)
              ⊎ ((cc.s_max_age ≢ pos 0)
                  ⊎ ((has header "Expires" ≡ true)
                      ⊎ ((is_empty (get header "Etag") ≡ false)
                          ⊎ ((is_empty (get header "Last-Modified") ≡ false)
                              × (is_some (dates.parse_time (get header "Last-Modified"))
                                  ≡ true)))))))

  -- What must hold: the response is whole, and neither it nor the Authorization forbids the storing.
  pub record MayStore (cc : CacheControlResponseDirective) : Type 0 where
    pub whole : (has header "Range" ≡ false) × (has header "Content-Range" ≡ false)
    pub not_no_store : cc.no_store ≡ false
    pub private_only : (cc.private ≡ false) ⊎ (is_private ≡ true)
    pub authorized :
        (has header "Authorization" ≡ false)
        ⊎ ((is_private ≡ true)
            ⊎ ((cc.must_revalidate ≡ true) ⊎ ((cc.public ≡ true) ⊎ (cc.s_max_age ≢ pos 0))))
    pub permission : HasPermission cc

  decide_sound :
      (cc : CacheControlResponseDirective)
      → (decide_cacheable dates header is_private cc).0 ≡ true
      → MayStore cc
  unfolding decide_cacheable
  decide_sound cc h = record {
    whole = ground arith;
    not_no_store = ground arith;
    private_only = ground arith;
    authorized = ground arith;
    permission = ground arith;
  }

  decide_complete :
      (cc : CacheControlResponseDirective)
      → MayStore cc
      → decide_cacheable dates header is_private cc ≡ (true, true)
  unfolding decide_cacheable
  decide_complete cc m = ground arith

  abbrev pub directives : CacheControlResponseDirective × Bool
  directives = parse_cache_control_directive (values header "Cache-Control")

  -- A response is stored as cacheable exactly if its status is 200, its Cache-Control header parses,
  -- it has no Range and no Content-Range, and no no-store; it is not private, or the cache is; if it has
  -- an Authorization header, then the cache is private, or there is a must-revalidate, a public or an
  -- s-maxage other than 0; and there is a private, a public, a max-age or an s-maxage other than 0, an
  -- Expires, an Etag, or a Last-Modified that parses. What is cacheable is always so explicitly.
  pub is_cacheable_iff :
      ((is_cacheable dates status_code header is_private ≡ (true, true))
        ↔ ((status_code ≡ status_ok) × (directives.1 ≡ true) × MayStore directives.0))
      × (is_cacheable dates status_code header is_private ≢ (true, false))
  unfolding is_cacheable
  is_cacheable_iff = (
    (
      λ h. (ground (arith, h), ground (arith, h), decide_sound directives.0 (ground (arith, h))),
      λ m. ground (arith, decide_complete directives.0 m.2, m.0, m.1),
    ),
    λ h. ground (arith, h, decide_sound directives.0, decide_complete directives.0),
  )
