-- ===== src/Client/Conditional.antt =====
-- `addConditionalRequestInformation`: asking the upstream whether what is stored is still good.
use locaccel.Prelude.{
  String, List, [], ◌∷◌, ◌++◌, Option, none, some, Bool, true, false, not, ◌||◌, if◌then◌else◌,
}
use locaccel.Prelude.Int.{pos, ltb_ℤ, eqb_ℤ}
use locaccel.Prelude.Text.{join}
use locaccel.Http.{Time, HttpDates}
use locaccel.Http.Headers.{Header, values, put, has}
use locaccel.Client.{CachedResponses, HttpRequest}

abbrev pub all_values : String → CachedResponses → List String
all_values name [] = []
all_values name (entry ∷ entries) = values entry.headers name ++ all_values name entries

abbrev pub is_nil {ℓ} : {A : Type ℓ} → List A → Bool
is_nil [] = true
is_nil (x ∷ xs) = false

module _ (dates : HttpDates) where
  -- The latest of the dates that parse, with its text; the zero time and no text if there is none.
  abbrev latest_step : String → Option Time → Time × String → Time × String
  latest_step date none best = best
  latest_step date (some t) (max_time, text) =
      if ltb_ℤ max_time t then (t, date) else (max_time, text)

  unfoldable pub latest : List String → Time × String → Time × String
  latest [] best = best
  latest (date ∷ more) best = latest more (latest_step date (dates.parse_time date) best)

  -- `If-None-Match`: the stored tags, and those of the request behind them, in one line
  unfoldable pub with_etags : List String → Header → Header
  with_etags [] header = header
  with_etags (e ∷ es) header =
      put header "If-None-Match" (join ", " ((e ∷ es) ++ values header "If-None-Match") ∷ [])

  -- `If-Modified-Since`, where the request has none
  unfoldable pub with_last_modified : List String → Header → Header
  unfolding latest
  with_last_modified [] header = header
  with_last_modified (date ∷ []) header = put header "If-Modified-Since" (date ∷ [])
  with_last_modified (d ∷ e ∷ more) header =
      let (max_time, text) = latest (d ∷ e ∷ more) (pos 0, "") in
      if eqb_ℤ max_time (pos 0) then header else put header "If-Modified-Since" (text ∷ [])

  -- The request with the information, whether it has any, and whether the request was conditional
  -- before.
  unfoldable pub add_conditional_request_information :
      HttpRequest → CachedResponses → HttpRequest × Bool × Bool
  unfolding with_etags with_last_modified
  add_conditional_request_information req value =
      let etags = all_values "Etag" value in
      let own_date = has req.header "If-Modified-Since" in
      let last_modified = if own_date then [] else all_values "Last-Modified" value in
      (
        record req { header = with_last_modified last_modified (with_etags etags req.header) },
        not (is_nil etags) || not (is_nil last_modified),
        not (is_nil (values req.header "If-None-Match"))
            || not (is_nil (values req.header "If-Modified-Since")),
      )
