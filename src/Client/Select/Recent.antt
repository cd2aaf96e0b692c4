-- ===== src/Client/Select/Recent.antt =====
-- `selectMostRecentCandidates` against its meaning: the candidates of the latest date.
use locaccel.Prelude.{
  [], ◌∷◌, ◌++◌, if◌then◌else◌, keep_if, arith, ◌≡◌, append_assoc, append-nil, Bool-cases, inl, inr,
}
use locaccel.Prelude.Int.{pos, ◌≤ℤ◌, ltb_ℤ, eqb_ℤ}
use locaccel.Http.{Time, HttpDates}
use locaccel.Client.{CachedResponse, CachedResponses}
use locaccel.Client.Select.{date_of, most_recent_from, select_most_recent_candidates}

module _ (dates : HttpDates) where
  -- the latest of a time and the dates of the candidates
  unfoldable pub latest_date : Time → CachedResponses → Time
  latest_date t [] = t
  latest_date t (c ∷ cs) = let d = date_of dates c in latest_date (if ltb_ℤ t d then d else t) cs

  latest_date-le : (t : Time) (cs : CachedResponses) → t ≤ℤ latest_date t cs
  unfolding latest_date
  latest_date-le t [] = omega arith
  latest_date-le t (c ∷ cs) =
      ground (arith, latest_date-le (if ltb_ℤ t (date_of dates c) then date_of dates c else t) cs)

  abbrev pub of_date : Time → CachedResponses → CachedResponses
  of_date t cs = keep_if (λ c. eqb_ℤ (date_of dates c) t) cs

  abbrev kept : CachedResponses → Time → Time → CachedResponses
  kept acc t best = if eqb_ℤ t best then acc else []

  -- one candidate, whose date is `d`
  kept_step :
      (c : CachedResponse) (acc rest : CachedResponses) (t d best : Time)
      → t ≤ℤ best
      → d ≤ℤ t
      → kept (if eqb_ℤ d t then acc ++ c ∷ [] else acc) t best ++ rest
        ≡ kept acc t best ++ (if eqb_ℤ d best then c ∷ rest else rest)
  kept_step c acc rest t d best h k = ground (arith, append_assoc acc (c ∷ []) rest)

  most_recent_from_lem :
      (cs acc : CachedResponses) (t : Time)
      → most_recent_from dates cs acc t
        ≡ kept acc t (latest_date t cs) ++ of_date (latest_date t cs) cs
  unfolding most_recent_from latest_date
  most_recent_from_lem [] acc t = ground (arith, append-nil acc)
  most_recent_from_lem (c ∷ cs) acc t = elim (Bool-cases (ltb_ℤ t (date_of dates c))) [
    | inl e ↦
        let d = date_of dates c in
        ground (arith, most_recent_from_lem cs (c ∷ []) d, latest_date-le d cs)
    | inr e ↦
        let d = date_of dates c in
        let acc' = if eqb_ℤ d t then acc ++ c ∷ [] else acc in
        ground (
          arith,
          most_recent_from_lem cs acc' t,
          kept_step c acc (of_date (latest_date t cs) cs) t d (latest_date t cs)
              (latest_date-le t cs) (ground arith),
        )
  ]

  -- The candidates that are chosen are those whose date is the latest of all, in their order, with a
  -- date that does not parse taken as the zero time.
  pub select_most_recent_candidates_lem :
      (candidates : CachedResponses)
      → select_most_recent_candidates dates candidates
        ≡ of_date (latest_date (pos 0) candidates) candidates
  unfolding select_most_recent_candidates
  select_most_recent_candidates_lem candidates =
      ground (arith, most_recent_from_lem candidates [] (pos 0))
