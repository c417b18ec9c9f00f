-- ===== src/Shell/Observability/Counted.antt =====
-- The counters of the middleware count the requests.
use distributed_rate_limiter.Base.{
  Bool, Bool-cases, List, Option, [], ap, arith, count_if, inl, inr, none, refl, some, ℕ, ◌&&◌,
  ◌++◌, ◌+◌, ◌∙◌, ◌∷◌, ◌≡◌,
}
use distributed_rate_limiter.Base.Text.{Text, codes, text_eq, text_eq_refl, decimal}
use distributed_rate_limiter.Shell.Observability.{
  Response, Exchange, HttpMetrics, header_of, setdefault, lower_case, resolve_route_label, inc,
  observe_http_request, dispatch, dispatch_all,
}

-- The status code that the client of an exchange gets: 500 where the application raises.
abbrev pub status_of : Exchange → ℕ
status_of x = elim x.response [ none ↦ 500 | some response ↦ response.status_code ]

-- Whether an exchange has the labels.
abbrev pub labelled : Text → Text → Text → Exchange → Bool
labelled method route code x =
    text_eq x.method method
    && text_eq (resolve_route_label x) route
    && text_eq (decimal (status_of x)) code

header_of-append :
    (name value : Text) (headers : List (Text × Text))
    → header_of name headers ≡ none
    → header_of name (headers ++ (name, value) ∷ []) ≡ some value
unfolding header_of
header_of-append name value [] h = rw (text_eq_refl (lower_case name)) refl
header_of-append name value ((k, v) ∷ headers) h =
    elim (Bool-cases (text_eq (lower_case k) (lower_case name))) [
      | inl e ↦ absurd (let no : some v ≡ none = rw e at h in cc)
      | inr e ↦ rw e (header_of-append name value headers (rw e at h))
    ]

-- The value of a header that was there, or else the default.
abbrev pub own_or : Option Text → Text → Text
own_or none value = value
own_or (some own) value = own

header_of-setdefault :
    (name value : Text) (headers : List (Text × Text))
    → header_of name (setdefault name value headers) ≡ some (own_or (header_of name headers) value)
unfolding setdefault
header_of-setdefault name value headers = go (header_of name headers) refl
  where
    go :
        (o : Option Text)
        → header_of name headers ≡ o
        → header_of name (elim o as (λ x. List (Text × Text)) [
          | some found ↦ headers
          | none ↦ headers ++ (name, value) ∷ []
        ])
          ≡ some (own_or o value)
    go none e = header_of-append name value headers e
    go (some found) e = e

-- What the middleware makes of what the application made of a request: the exception again, or the
-- same status with an X-Instance-Name, which is the application's own if it set one.
abbrev pub Answered : Text → Option Response → Option Response → Type 0
Answered app_instance_name none out = out ≡ none
Answered app_instance_name (some response) out =
    (r : Response) × (out ≡ some r)
    × (r.status_code ≡ response.status_code)
    × (header_of (codes "X-Instance-Name") r.headers
        ≡ some (own_or (header_of (codes "X-Instance-Name") response.headers) app_instance_name))

abbrev pub AllAnswered : Text → List Exchange → List (Option Response) → Type 0
AllAnswered app_instance_name [] [] = Unit
AllAnswered app_instance_name (x ∷ exchanges) (out ∷ responses) =
    Answered app_instance_name x.response out × AllAnswered app_instance_name exchanges responses
AllAnswered app_instance_name _ _ = ⊥

one_dispatched :
    (name method url_path : Text) (route_path : Option Text) (o : Option Response)
    (metrics : HttpMetrics)
    → let x : Exchange = record {
      method = method;
      route_path = route_path;
      url_path = url_path;
      response = o;
    } in
      Answered name o (dispatch name x metrics).0
      × ((dispatch name x metrics).1
          ≡ observe_http_request method (resolve_route_label x) (status_of x) metrics)
unfolding dispatch
one_dispatched name method url_path route_path none metrics = (refl, refl)
one_dispatched name method url_path route_path (some response) metrics =
    ((_, refl, refl, header_of-setdefault (codes "X-Instance-Name") name response.headers), refl)

counted_once :
    (x : Exchange) (m r c : Text) (counter : Text → Text → Text → ℕ) (exchanges : List Exchange)
    (end : ℕ)
    → end
      ≡ inc x.method (resolve_route_label x) (decimal (status_of x)) counter m r c
        + count_if (labelled m r c) exchanges
    → end ≡ counter m r c + count_if (labelled m r c) (x ∷ exchanges)
unfolding inc
counted_once x m r c counter exchanges end h = elim (Bool-cases (labelled m r c x)) [
  | inl e ↦
      let h' : end ≡ counter m r c + 1 + count_if (labelled m r c) exchanges = rw e at h in
      rw e (omega (arith, h'))
  | inr e ↦
      let h' : end ≡ counter m r c + count_if (labelled m r c) exchanges = rw e at h in rw e h'
]

-- Over any sequence of requests, each gets its answer: the application's response with its status
-- and an X-Instance-Name, or the application's exception again. Both the counter and the histogram
-- grow, for each method, route and status code, by exactly the number of requests with these
-- labels, where a request that raised has the status code 500.
pub dispatch_all_counts :
    (app_instance_name : Text) (exchanges : List Exchange) (metrics : HttpMetrics)
    → let (responses, end) = dispatch_all app_instance_name exchanges metrics in
      AllAnswered app_instance_name exchanges responses
      × ((m r c : Text)
          → (end.requests_total m r c
              ≡ metrics.requests_total m r c + count_if (labelled m r c) exchanges)
            × (end.latencies_count m r c
                ≡ metrics.latencies_count m r c + count_if (labelled m r c) exchanges))
unfolding dispatch_all
dispatch_all_counts name [] metrics = (tt, λ m r c. (omega arith, omega arith))
dispatch_all_counts name (x ∷ exchanges) metrics =
    let (answered, observed) =
      one_dispatched name x.method x.url_path x.route_path x.response metrics in
    let (answers, counts) = dispatch_all_counts name exchanges (dispatch name x metrics).1 in
    (
      (answered, answers),
      λ m r c.
          let (total, latencies) = counts m r c in
          (
            counted_once x m r c metrics.requests_total exchanges _ (
                total
                ∙ ap (λ k. k.requests_total m r c + count_if (labelled m r c) exchanges) observed),
            counted_once x m r c metrics.latencies_count exchanges _ (
                latencies
                ∙ ap (λ k. k.latencies_count m r c + count_if (labelled m r c) exchanges) observed),
          ),
    )
