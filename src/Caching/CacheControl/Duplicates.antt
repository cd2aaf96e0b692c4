-- ===== src/Caching/CacheControl/Duplicates.antt =====
-- Of several directives of one name only the first counts.
use locaccel.Prelude.{
  String, List, [], ◌∷◌, ◌++◌, map, true, ◌≡◌, refl, arith, eq_iff, eq_refl, ap, append_assoc, sym,
}
use locaccel.Prelude.Text.{split_seq}
use locaccel.Caching.CacheControl.{
  Scan, no_scan, contains, key_and_value, scan_directive, scan_directives, scan_headers,
  parse_cache_control_directive,
}
use locaccel.Caching.CacheControl.Joined.{scan_directives-append, scan_directives-invalid}

abbrev pub key_of : String → String
key_of directive = (key_and_value directive).0

-- All the directives of a header, line after line.
abbrev pub directives_of : List String → List String
directives_of [] = []
directives_of (hdr ∷ header) = split_seq b',' hdr ++ directives_of header

-- The two loops are one over all the directives.
pub scan_headers-flat :
    (header : List String) (s : Scan)
    → scan_headers header s ≡ scan_directives (directives_of header) s
unfolding scan_headers
scan_headers-flat [] s = unfold scan_directives in refl
scan_headers-flat (hdr ∷ header) s =
    rw (scan_directives-append (split_seq b',' hdr) (directives_of header) s)
      (scan_headers-flat header (scan_directives (split_seq b',' hdr) s))

-- the name of a directive has been seen once it has been read
contains-scan_directive :
    (d : String) (s : Scan) → contains (scan_directive d s).seen (key_of d) ≡ true
unfolding scan_directive
contains-scan_directive d s = ground (arith, eq_refl (key_of d))

-- and what was seen stays seen
contains_stays :
    (d k : String) (s : Scan)
    → contains s.seen k ≡ true
    → contains (scan_directive d s).seen k ≡ true
unfolding scan_directive
contains_stays d k s h = ground arith

contains_stays_all :
    (ds : List String) (k : String) (s : Scan)
    → contains s.seen k ≡ true
    → contains (scan_directives ds s).seen k ≡ true
unfolding scan_directives
contains_stays_all [] k s h = h
contains_stays_all (d ∷ ds) k s h =
    ground (arith, contains_stays d k s, contains_stays_all ds k (scan_directive d s))

-- Unless the scan stopped at an error, it has seen the names of all the directives that it read.
contains-scan_directives :
    (ds : List String) (k : String) (s : Scan)
    → contains (map key_of ds) k ≡ true
    → (scan_directives ds s).valid ≡ true
    → contains (scan_directives ds s).seen k ≡ true
unfolding scan_directives
contains-scan_directives [] k s h v = cc
contains-scan_directives (d ∷ ds) k s h v = ground (
  arith,
  eq_iff (key_of d) k,
  contains-scan_directive d s,
  contains_stays_all ds k (scan_directive d s),
  contains-scan_directives ds k (scan_directive d s),
)

-- A directive whose name was seen changes nothing.
pub scan_directive-seen :
    (d : String) (s : Scan) → contains s.seen (key_of d) ≡ true → scan_directive d s ≡ s
unfolding scan_directive
scan_directive-seen d s h = ground arith

scan_directives-duplicate :
    (ds es : List String) (d : String) (s : Scan)
    → contains (map key_of ds) (key_of d) ≡ true
    → scan_directives (ds ++ d ∷ es) s ≡ scan_directives (ds ++ es) s
scan_directives-duplicate ds es d s h =
    rw (scan_directives-append ds (d ∷ es) s, scan_directives-append ds es s)
      (unfold scan_directives in
        ground (
          arith,
          scan_directive-seen d (scan_directives ds s),
          contains-scan_directives ds (key_of d) s h,
          scan_directives-invalid es (scan_directives ds s),
        ))

directives_of-append :
    (hs rest : List String) → directives_of (hs ++ rest) ≡ directives_of hs ++ directives_of rest
directives_of-append [] rest = refl
directives_of-append (h ∷ hs) rest =
    rw (directives_of-append hs rest) (sym (append_assoc (split_seq b',' h) _ _))

-- A line with one directive, whose name stands among the directives of the lines before it, can be
-- left out: the directives and the error are the same without it.
parse-duplicate :
    (header rest : List String) (d : String)
    → split_seq b',' d ≡ d ∷ []
    → contains (map key_of (directives_of header)) (key_of d) ≡ true
    → parse_cache_control_directive (header ++ d ∷ rest)
      ≡ parse_cache_control_directive (header ++ rest)
unfolding parse_cache_control_directive
parse-duplicate header rest d one h =
    rw
      (
        scan_headers-flat (header ++ d ∷ rest) no_scan,
        scan_headers-flat (header ++ rest) no_scan,
        directives_of-append header (d ∷ rest),
        directives_of-append header rest,
        one,
      )
      (ap (λ (s : Scan). (s.response, s.valid))
        (scan_directives-duplicate (directives_of header) (directives_of rest) d no_scan h))
