-- ===== src/Definitions.antt =====
-- The types of docs/definitions/*.yaml, from which the build makes the C++ structs of the bodies. A property
-- that is not required is an `Option`. Numbers stand for themselves: the width of a generated
-- integer field is not in the source.
use Prim.Native.String.{String}
use leadertask_userver.Base.{ℕ, Bytes, Option}
use leadertask_userver.Base.Int.{ℤ}

pub record Goal : Type 0 where
  pub id : Bytes
  pub title : Bytes
  pub description : Option Bytes
  pub user_id : Option ℤ

pub record CreateGoalRequestBody : Type 0 where
  pub title : Bytes
  pub description : Option Bytes

pub record CreateGoalResponseBody : Type 0 where
  pub id : Option Bytes
  pub title : Option Bytes
  pub description : Option Bytes
  pub user_id : Option ℤ

pub record Task : Type 0 where
  pub id : ℤ
  pub goal_id : ℤ
  pub title : Bytes
  pub status : Bytes

pub record CreateTaskRequestBody : Type 0 where
  pub title : Bytes

pub record CreateTaskResponseBody : Type 0 where
  pub id : ℤ
  pub goal_id : ℤ
  pub title : Bytes
  pub status : Bytes

pub record UpdateTaskStatusRequest : Type 0 where
  pub status : Bytes

pub record User : Type 0 where
  pub id : ℤ
  pub login : Bytes
  pub first_name : Bytes
  pub last_name : Bytes

pub record CreateUserRequestBody : Type 0 where
  pub login : Bytes
  pub password : Bytes
  pub first_name : Bytes
  pub last_name : Bytes

pub record CreateUserResponseBody : Type 0 where
  pub user_id : ℤ

pub record LoginRequestBody : Type 0 where
  pub login : Bytes
  pub password : Bytes

pub record LoginResponseBody : Type 0 where
  pub access_token : Bytes

pub record HelloRequestBody : Type 0 where
  pub name : Bytes

-- The time is that of the clock, as a number.
pub record HelloResponseBody : Type 0 where
  pub text : Bytes
  pub current_time : Option ℕ

-- An exception of a library or a service, with its text.
pub record Exception : Type 0 where
  pub what : String
