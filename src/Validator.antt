-- ===== src/Validator.antt =====
-- pkg/validator/validator.go: the message for a request that fails validation.
use Prim.Native.String
use ginblade.Prelude.{String, List, [], ◌∷◌, str_eq, to_lower, if◌then◌else◌}

-- validator.FieldError, of go-playground/validator, through the methods that the program calls.
pub record FieldError : Type 0 where
  pub field : String
  pub tag : String
  pub param : String

-- The `switch err.Tag()`.
unfoldable pub field_message : FieldError → String
field_message e =
    let field = to_lower e.field in
    if str_eq e.tag "required"
    then String.◌++◌ field " is required"
    else if str_eq e.tag "min"
    then String.◌++◌ field (String.◌++◌ " must be at least " e.param)
    else if str_eq e.tag "max"
    then String.◌++◌ field (String.◌++◌ " must be at most " e.param)
    else String.◌++◌ field " is invalid"

-- HandleValidatorError
unfoldable pub handle_validator_error : List FieldError → String
unfolding field_message
handle_validator_error [] = "invalid request parameters"
handle_validator_error (e ∷ es) = field_message e
