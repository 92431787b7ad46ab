-- ===== src/Workbench/Durable/Responses/Requests.antt =====
-- The end of a request of `runRequest` of workbench-context.tsx, on a storage that has room.
use dotnet_web_api_startpack.Prelude.{
  ℕ, Text, refl, ap, arith, Bool-cases, Option-cases, inl, inr, ◌==◌,
}
use dotnet_web_api_startpack.Types.{ApiResult}
use dotnet_web_api_startpack.Platform.{Platform}
use dotnet_web_api_startpack.Fetch.{Exit, success, failure, interrupted}
use dotnet_web_api_startpack.Workbench.State.{Flight, push_toast}
use dotnet_web_api_startpack.Workbench.Capture.{Captured, noticed, thrown}
use dotnet_web_api_startpack.Workbench.Request.{finish_request, release, land, settle, report}
use dotnet_web_api_startpack.Workbench.Durable.{
  IsDurable, same-IsDurable, compose-IsDurable, aside-Lasts,
}
use dotnet_web_api_startpack.Workbench.Durable.Responses.{
  agree-IsDurable, capture_response_data-Steady,
}

settle-IsDurable :
    (flight : Flight) (result : ApiResult) (outcome : Captured)
    → IsDurable (λ w. settle flight result (w, outcome))
settle-IsDurable flight result thrown w good = same-IsDurable w good
settle-IsDurable flight result (noticed text) w good =
    aside-Lasts _ w good (λ n. ground arith) (ground arith) (ground arith)

release-IsDurable : (k : ℕ) → IsDurable (λ w. release k (land k w))
release-IsDurable k w good = elim (Option-cases w.abort) [
  | inl e ↦ aside-Lasts _ w good (λ n. rw e refl) (rw e refl) (rw e refl)
  | inr (j, e) ↦ elim (Bool-cases (j == k)) [
    | inl own ↦ aside-Lasts _ w good (λ n. rw (e, own) refl) (rw (e, own) refl) (rw (e, own) refl)
    | inr other ↦
        aside-Lasts _ w good (λ n. rw (e, other) refl) (rw (e, other) refl) (rw (e, other) refl)
  ]
]

module _ ⦃p : Platform⦄ where
  report-IsDurable : (flight : Flight) (reason : Text) → IsDurable (report flight reason)
  unfolding push_toast
  report-IsDurable flight reason w good = elim (Bool-cases flight.options.report_error) [
    | inl reports ↦ aside-Lasts _ w good (λ n. rw reports refl) (rw reports refl) (rw reports refl)
    | inr silent ↦ aside-Lasts _ w good (λ n. rw silent refl) (rw silent refl) (rw silent refl)
  ]

  pub finish_request-IsDurable :
      (flight : Flight) (exit : Exit ApiResult) (cookies : Text)
      → IsDurable (finish_request flight exit cookies)
  unfolding finish_request
  finish_request-IsDurable flight interrupted cookies = release-IsDurable flight.controller
  finish_request-IsDurable flight (failure reason) cookies =
      compose-IsDurable _ _ (release-IsDurable flight.controller) (report-IsDurable flight reason)
  finish_request-IsDurable flight (success result) cookies =
      let captured =
        capture_response_data-Steady flight.closure flight.options.endpoint result cookies in
      compose-IsDurable _ _ (release-IsDurable flight.controller) (
        agree-IsDurable _ _ (λ w. ap (settle flight result) (captured.agrees w))
          (compose-IsDurable _ _ captured.durable
            (settle-IsDurable flight result captured.outcome)))
