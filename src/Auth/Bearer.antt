-- ===== src/Auth/Bearer.antt =====
-- normalizeBearerToken strips the scheme in front of a token.
use Prim.Native.String.{String, ◌++◌}
use ginblade.Prelude.{◌≡◌, refl, false, is_empty, trim_space, to_lower, has_prefix, is_space}
use ginblade.Prelude.Text.Append.{has_prefix-append, drop_ascii-append, trim_space-append}
use ginblade.Auth.{normalize_bearer_token}

-- A trimmed token behind the scheme comes out as it is.
pub normalize_bearer_token-append :
    (token : String)
    → trim_space token ≡ token
    → is_empty token ≡ false
    → normalize_bearer_token ("Bearer " ++ token) ≡ token
unfolding normalize_bearer_token is_space has_prefix to_lower
normalize_bearer_token-append token t e =
    rw
      (
        trim_space-append _ _ token refl e t,
        has_prefix-append "Bearer " token "bearer " refl,
        drop_ascii-append "Bearer " token,
      )
      t
