-- ===== src/Model.antt =====
-- internal/model/example.go and the request and response types of internal/service/example.go and
-- internal/handler/auth.go: the data that travels through the layers.
use ginblade.Prelude.{ℕ, String, Bool, List}
use ginblade.Prelude.Int.{ℤ}

-- model.Example; a time is a number of nanoseconds.
pub record Example : Type 0 where
  pub id : ℕ
  pub name : String
  pub created_at : ℕ
  pub updated_at : ℕ

-- (Example).TableName
unfoldable pub table_name : Example → String
table_name e = "examples"

-- service.CreateExampleReq
pub record CreateExampleReq : Type 0 where
  pub name : String

-- service.EnqueueExampleTaskReq
pub record EnqueueExampleTaskReq : Type 0 where
  pub name : String

-- service.EnqueueExampleTaskRes
pub record EnqueueExampleTaskRes : Type 0 where
  pub queued : Bool

-- service.ListExamplesReq
pub record ListExamplesReq : Type 0 where
  pub limit : ℤ
  pub offset : ℤ

-- service.ListExamplesRes
pub record ListExamplesRes : Type 0 where
  pub examples : List Example
  pub total : ℕ

-- handler.CreateTokenReq
pub record CreateTokenReq : Type 0 where
  pub subject : String

-- handler.CreateTokenRes
pub record CreateTokenRes : Type 0 where
  pub access_token : String
  pub token_type : String

-- handler.MeRes
pub record MeRes : Type 0 where
  pub subject : String
