-- ===== src/Webhook/Server/Replies.antt =====
-- The replies that the handlers of the webhook write.
use observability.Base.{
  ◌≡◌, ◌↔◌, ◌⊎◌, ap, inl, inr, Bool, true, false, ◌||◌, List, [], ◌∷◌, Option, none, some, arith,
  Text, length, Bool-cases, Option-cases,
}
use observability.Webhook.Server.{
  AdmissionRequest, AdmissionReview, ok, err_unable_to_deserialize, Decoder, HttpRequest, Reply,
  http_error, review, allow, refuse_update, validate_log_sink_config_request, deserialize_review,
  log_sink_handler,
}
use observability.Webhook.Server.Verdict.{
  is_update, Allowed, Fails, Outcome-cases, validate_log_sink_exact,
}

-- An object of a request that the validation needs cannot be read.
abbrev pub Unreadable : Decoder → AdmissionRequest → Type 0
Unreadable d req =
    (d.log_sink req.object ≡ none) ⊎ ((is_update req ≡ true) × (d.log_sink req.old_object ≡ none))

-- A review whose response allows is among the replies.
abbrev pub any_allows : List Reply → Bool
any_allows [] = false
any_allows (http_error e ∷ rs) = any_allows rs
any_allows (review none ∷ rs) = any_allows rs
any_allows (review (some resp) ∷ rs) = resp.allowed || any_allows rs

module _ (d : Decoder) (req : AdmissionRequest) where
  Fails-Unreadable : Fails (validate_log_sink_config_request d req) → Unreadable d req
  unfolding validate_log_sink_config_request refuse_update
  Fails-Unreadable (e, h) = elim (Option-cases (d.log_sink req.object)) [
    | inl none_read ↦ inl none_read
    | inr (s, read) ↦ elim (Bool-cases (is_update req)) [
      | inl u ↦ elim (Option-cases (d.log_sink req.old_object)) [
        | inl none_read ↦ inr (u, none_read)
        | inr (o, old_read) ↦ absurd (ground arith)
      ]
      | inr u ↦ absurd (ground arith)
    ]
  ]

  Unreadable-Fails : Unreadable d req → Fails (validate_log_sink_config_request d req)
  unfolding validate_log_sink_config_request refuse_update
  Unreadable-Fails (inl e) = (err_unable_to_deserialize, ground arith)
  Unreadable-Fails (inr (u, e)) = elim (Option-cases (d.log_sink req.object)) [
    | inl none_read ↦ (err_unable_to_deserialize, ground arith)
    | inr (s, read) ↦ (err_unable_to_deserialize, ground arith)
  ]

module _ (decode : Text → Option AdmissionReview) (d : Decoder) (r : HttpRequest) where
  -- The handler of log sinks writes two replies exactly when the request is read and the object,
  -- or, for an update, the old object, is not.
  pub log_sink_handler_twice :
      (length (log_sink_handler decode d r) ≡ 2)
      ↔ ((req : AdmissionRequest) × (deserialize_review decode r ≡ ok req) × Unreadable d req)
  unfolding log_sink_handler
  log_sink_handler_twice = (forth, back)
    where
      forth :
          length (log_sink_handler decode d r) ≡ 2
          → (req : AdmissionRequest) × (deserialize_review decode r ≡ ok req) × Unreadable d req
      forth h = elim (Outcome-cases (deserialize_review decode r)) [
        | inr (e, f) ↦ absurd (ground arith)
        | inl (req, f) ↦ elim (Outcome-cases (validate_log_sink_config_request d req)) [
          | inl (a, g) ↦ absurd (ground arith)
          | inr failed ↦ (req, f, Fails-Unreadable d req failed)
        ]
      ]

      back :
          (req : AdmissionRequest) × (deserialize_review decode r ≡ ok req) × Unreadable d req
          → length (log_sink_handler decode d r) ≡ 2
      back (req, f, u) = let (e, g) = Unreadable-Fails d req u in ground arith

module _ (decode : Text → Option AdmissionReview) (d : Decoder) (r : HttpRequest)
    (req : AdmissionRequest) where
  -- To a request that is read, the handler of log sinks writes a review with `Allowed` set exactly
  -- when its object is read and secure and, for an update, the old object is read and has the same
  -- type; it then writes the one review with the UID of the request and no message, and nothing
  -- else.
  pub log_sink_handler_allows :
      deserialize_review decode r ≡ ok req
      → ((any_allows (log_sink_handler decode d r) ≡ true) ↔ Allowed d req)
        × (Allowed d req
            → log_sink_handler decode d r
              ≡ review (some (record { uid = req.uid; allowed = true; message = none })) ∷ [])
  unfolding log_sink_handler
  log_sink_handler_allows e = ((forth, (λ a. ap any_allows (written a))), written)
    where
      forth : any_allows (log_sink_handler decode d r) ≡ true → Allowed d req
      forth h = elim (Outcome-cases (validate_log_sink_config_request d req)) [
        | inr (x, g) ↦ absurd (ground arith)
        | inl (resp, g) ↦ (validate_log_sink_exact d req).0.0 (resp, g, ground arith)
      ]

      written : Allowed d req → log_sink_handler decode d r ≡ review (some (allow req)) ∷ []
      written a = let g = (validate_log_sink_exact d req).1 a in ground arith
