-- ===== src/Caching/CacheControl/Joined.antt =====
-- A header in several lines reads as the same header in one line.
use locaccel.Prelude.{String, List, [], ◌∷◌, ◌++◌, false, ◌≡◌, refl, arith, ap}
use locaccel.Prelude.Text.{◌<+>◌, split_seq}
use locaccel.Prelude.Text.Split.{split_seq-append}
use locaccel.Caching.CacheControl.{
  Scan, no_scan, scan_directive, scan_directives, scan_headers, parse_cache_control_directive,
}

-- A scan with an error stays as it is.
pub scan_directives-invalid :
    (ds : List String) (s : Scan) → s.valid ≡ false → scan_directives ds s ≡ s
unfolding scan_directives
scan_directives-invalid [] s h = refl
scan_directives-invalid (d ∷ ds) s h = ground arith

pub scan_directives-append :
    (ds es : List String) (s : Scan)
    → scan_directives (ds ++ es) s ≡ scan_directives es (scan_directives ds s)
unfolding scan_directives
scan_directives-append [] es s = refl
scan_directives-append (d ∷ ds) es s =
    ground (arith, scan_directives-append ds es (scan_directive d s), scan_directives-invalid es s)

scan_headers-joined :
    (h₁ h₂ : String) (rest : List String) (s : Scan)
    → scan_headers (h₁ ∷ h₂ ∷ rest) s ≡ scan_headers ((h₁ <+> String.◌∷◌ "," h₂) ∷ rest) s
unfolding scan_headers
scan_headers-joined h₁ h₂ rest s =
    rw
      (split_seq-append "," h₁ h₂, scan_directives-append (split_seq b',' h₁) (split_seq b',' h₂) s)

-- Two lines of the header read as the one line in which a comma joins them: the same directives,
-- and an error for one exactly if for the other.
pub parse-joined :
    (h₁ h₂ : String) (rest : List String)
    → parse_cache_control_directive (h₁ ∷ h₂ ∷ rest)
      ≡ parse_cache_control_directive ((h₁ <+> String.◌∷◌ "," h₂) ∷ rest)
unfolding parse_cache_control_directive
parse-joined h₁ h₂ rest =
    ap (λ (s : Scan). (s.response, s.valid)) (scan_headers-joined h₁ h₂ rest no_scan)
