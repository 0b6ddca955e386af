-- ===== src/Errors.antt =====
-- internal/domain/errors.go, Go's error values, and the two monads of the model: a result with an
-- error, and an action that also changes the world outside.
pub mod Cases
use rescuestream_api.Prelude.{String, Bool, true, false}

-- The sentinel errors of errors.go.
pub data DomainError : Type 0 where
  not_found already_exists invalid_status stream_key_in_use stream_key_revoked : DomainError
  stream_key_expired invalid_stream_key unauthorized : DomainError

-- An `error` value: a sentinel, `pgx.ErrNoRows`, an error made by a library, or
-- `fmt.Errorf("text: %w", err)`.
pub data Error : Type 0 where
  domain : DomainError → Error
  no_rows : Error
  external : String → Error
  wrap : String → Error → Error

abbrev pub same_error : DomainError → DomainError → Bool
same_error not_found not_found = true
same_error already_exists already_exists = true
same_error invalid_status invalid_status = true
same_error stream_key_in_use stream_key_in_use = true
same_error stream_key_revoked stream_key_revoked = true
same_error stream_key_expired stream_key_expired = true
same_error invalid_stream_key invalid_stream_key = true
same_error unauthorized unauthorized = true
same_error _ _ = false

-- `errors.Is(err, target)` for a sentinel: the chain of wrapped errors is followed.
abbrev pub errors_is : Error → DomainError → Bool
errors_is (domain d) target = same_error d target
errors_is no_rows target = false
errors_is (external s) target = false
errors_is (wrap s e) target = errors_is e target

-- `err == target`: nothing is unwrapped.
abbrev pub error_eq : Error → DomainError → Bool
error_eq (domain d) target = same_error d target
error_eq _ target = false

-- `errors.Is(err, pgx.ErrNoRows)`
abbrev pub is_no_rows : Error → Bool
is_no_rows no_rows = true
is_no_rows (domain d) = false
is_no_rows (external s) = false
is_no_rows (wrap s e) = is_no_rows e

pub data Result (A : Type 0) : Type 0 where
  ok : A → Result A
  err : Error → Result A

-- A call on a world `W`: its value or error, and the world that it leaves.
abbrev pub Action : Type 0 → Type 0 → Type 0
Action W A = W → Result A × W

module _ {W A : Type 0} where
  abbrev pub pure : A → Action W A
  pure a w = (ok a, w)

  abbrev pub fail : Error → Action W A
  fail e w = (err e, w)

  -- The error as a value, for code that goes on after it.
  unfoldable pub attempt : Action W A → Action W (Result A)
  attempt m w = let (r, w') = m w in (ok r, w')

  abbrev pub lift : Result A → Action W A
  lift r w = (r, w)

-- A call whose value is decoded by `f` and whose error is turned into another by `g`.
unfoldable pub handle :
    {W A B : Type 0} → (A → Result B) → (Error → Error) → Action W A → Action W B
handle f g m w = let (r, w') = m w in (elim r [ ok a ↦ f a | err e ↦ err (g e) ], w')

-- `if err != nil { return fmt.Errorf("text: %w", err) }`
abbrev pub wrapping : {W A : Type 0} → String → Action W A → Action W A
wrapping s = handle ok (wrap s)

infixl 5 ◌>>=◌ ◌>>◌
unfoldable pub ◌>>=◌ : {W A B : Type 0} → Action W A → (A → Action W B) → Action W B
◌>>=◌ m f w = let (r, w') = m w in elim r [ ok a ↦ f a w' | err e ↦ (err e, w') ]

abbrev pub ◌>>◌ : {W A B : Type 0} → Action W A → Action W B → Action W B
m >> k = m >>= λ _. k
