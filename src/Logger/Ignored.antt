-- ===== src/Logger/Ignored.antt =====
-- Which requests have no line in the access log: `isIgnoredRoute` of logger/logger.utils.ts.
use Prim.Native.String
use program_capacity_invoice.Base.{
  String, eq_iff, true, ◌≡◌, refl, sym, ◌∙◌, ap, ◌↔◌, ◌⊎◌, inl, inr, arith, List, [], ◌∷◌,
}
use mathlib.Core.Path.{subst}
use program_capacity_invoice.Base.Words.{
  Lacks, lacks, lacks_lem, before, whole, at, before-Cuts, before-Lacks, before-append,
}
use program_capacity_invoice.Base.Rows.{All}
use program_capacity_invoice.Errors.Filter.{includes}
use program_capacity_invoice.Logger.AccessLog.{ignored_routes, strip_query, is_ignored_route}

-- The url is the route, or the route and a query.
abbrev pub Requests : String → String → Type 0
Requests url route =
    (url ≡ route) ⊎ ((query : String) × (url ≡ String.◌++◌ route (String.◌∷◌ "?" query)))

strip_query-Requests : (url : String) → Requests url (strip_query url)
unfolding strip_query
strip_query-Requests url = elim (before-Cuts "?" url) [
  | whole _ same ↦ inl (sym same)
  | at rest same ↦ inr (rest, same)
]

strip_query_lem :
    (url route : String) → Lacks "?" route → Requests url route → strip_query url ≡ route
unfolding strip_query
strip_query_lem url route h (inl same) = ap (before "?") same ∙ before-Lacks "?" route h
strip_query_lem url route h (inr (query, same)) =
    ap (before "?") same ∙ before-append "?" route query h

listed_lacks :
    (routes : List String) (route : String)
    → All (λ r. lacks "?" r ≡ true) routes
    → includes routes route ≡ true
    → lacks "?" route ≡ true
listed_lacks [] route h listed = absurd (cc listed)
listed_lacks (r ∷ routes) route h listed =
    ground (arith, h, eq_iff r route, listed_lacks routes route, ap (lacks "?"))

-- No operational route has a query of its own.
ignored_routes_lem : (route : String) → includes ignored_routes route ≡ true → Lacks "?" route
unfolding lacks
ignored_routes_lem route listed = lacks_lem "?" route (
    listed_lacks ignored_routes route
      (refl, (refl, (refl, (refl, (refl, (refl, (refl, (refl, (refl, tt))))))))) listed)

-- A request is left out of the access log exactly if its url is an operational route, with or
-- without a query.
pub is_ignored_route_lem :
    (url : String)
    → (is_ignored_route url ≡ true)
      ↔ ((route : String) × (includes ignored_routes route ≡ true) × Requests url route)
unfolding is_ignored_route
is_ignored_route_lem url = (
  λ h. (strip_query url, h, strip_query-Requests url),
  λ (route, listed, is).
      subst (λ x. includes ignored_routes x ≡ true)
        (sym (strip_query_lem url route (ignored_routes_lem route listed) is)) listed,
)
