-- ===== src/Shell/Observability.antt =====
-- app/middleware/observability.py, and `observe_http_request` of app/core/metrics.py: the counter
-- and the number of observations of the histogram, by their labels. Header names are ASCII; the
-- latencies are left out.
pub mod Counted
use distributed_rate_limiter.Base.{
  List, Option, [], if◌then◌else◌, leb, none, some, ℕ, ◌&&◌, ◌++◌, ◌+◌, ◌∷◌,
}
use distributed_rate_limiter.Base.Text.{Text, codes, text_eq, decimal}

pub record Response : Type 0 where
  pub status_code : ℕ
  pub headers : List (Text × Text)

-- A request and what the application makes of it; none where it raises an exception.
pub record Exchange : Type 0 where
  pub method : Text
  -- the `path` of `request.scope.get("route")`
  pub route_path : Option Text
  pub url_path : Text
  pub response : Option Response

-- HTTP_REQUESTS_TOTAL and REQUEST_LATENCY_SECONDS, by method, route and status code.
pub record HttpMetrics : Type 0 where
  pub requests_total : Text → Text → Text → ℕ
  pub latencies_count : Text → Text → Text → ℕ

-- The name of a header, without regard to case.
abbrev pub lower_case : Text → Text
lower_case [] = []
lower_case (c ∷ s) = (if leb 65 c && leb c 90 then c + 32 else c) ∷ lower_case s

-- `response.headers.get(name)`
unfoldable pub header_of : Text → List (Text × Text) → Option Text
header_of name [] = none
header_of name ((key, value) ∷ headers) =
    let later = header_of name headers in
    if text_eq (lower_case key) (lower_case name) then some value else later

-- `response.headers.setdefault(name, value)`
unfoldable pub setdefault : Text → Text → List (Text × Text) → List (Text × Text)
unfolding header_of
setdefault name value headers = elim (header_of name headers) [
  | some found ↦ headers
  | none ↦ headers ++ (name, value) ∷ []
]

abbrev pub resolve_route_label : Exchange → Text
resolve_route_label x = elim x.route_path [ none ↦ x.url_path | some path ↦ path ]

-- One more for these labels.
unfoldable pub inc : Text → Text → Text → (Text → Text → Text → ℕ) → Text → Text → Text → ℕ
inc method route code counter m r c =
    if text_eq method m && text_eq route r && text_eq code c
    then counter m r c + 1
    else counter m r c

abbrev pub observe_http_request : Text → Text → ℕ → HttpMetrics → HttpMetrics
observe_http_request method route status_code metrics =
    let code = decimal status_code in
    record {
      requests_total = inc method route code metrics.requests_total;
      latencies_count = inc method route code metrics.latencies_count;
    }

-- `dispatch`: the response, or none where it raises the application's exception again.
unfoldable pub dispatch : Text → Exchange → HttpMetrics → Option Response × HttpMetrics
dispatch app_instance_name x metrics =
    let route = resolve_route_label x in
    elim x.response [
      | none ↦ (none, observe_http_request x.method route 500 metrics)
      | some response ↦ (
        some (record response {
          headers = setdefault (codes "X-Instance-Name") app_instance_name response.headers;
        }),
        observe_http_request x.method route response.status_code metrics,
      )
    ]

-- The requests of a process in turn.
unfoldable pub dispatch_all :
    Text → List Exchange → HttpMetrics → List (Option Response) × HttpMetrics
unfolding dispatch
dispatch_all app_instance_name [] metrics = ([], metrics)
dispatch_all app_instance_name (x ∷ exchanges) metrics =
    let (response, metrics') = dispatch app_instance_name x metrics in
    let (responses, end) = dispatch_all app_instance_name exchanges metrics' in
    (response ∷ responses, end)
