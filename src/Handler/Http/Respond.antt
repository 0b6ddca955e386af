-- ===== src/Handler/Http/Respond.antt =====
-- The response of a handler to a call that has ended (internal/handler/errors.go and the handlers).
use rescuestream_api.Prelude.{◌≡◌, refl}
use rescuestream_api.Errors.{Error, Action, ok, err}
use rescuestream_api.Handler.Http.{Response, HttpError, problem, respond}

module _ {W A P : Type 0} (f : A → Response P) (g : Error → HttpError) (m : Action W A)
    (w : W) where
  pub respond_ok : {a : A} → (m w).0 ≡ ok a → respond f g m w ≡ (f a, (m w).1)
  respond_ok h = rw h refl

  pub respond_err : {x : Error} → (m w).0 ≡ err x → respond f g m w ≡ (problem (g x), (m w).1)
  respond_err h = rw h refl
