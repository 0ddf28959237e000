-- ===== src/Views/Hello.antt =====
-- The handler of src/views/hello/handler.cpp, with `SayHelloTo` of src/greeting.cpp.
use leadertask_userver.Base.{
  ℕ, ◌&&◌, none, some, [], ◌∷◌, ◌++◌, Bytes, codes, bytes_beq, if◌then◌else◌, Result, ok, err,
}
use leadertask_userver.Definitions.{Exception, HelloRequestBody, HelloResponseBody}
use leadertask_userver.Http.{HttpRequest, Outcome, value}

-- `HelloRequestBody::kFieldDefaultname`.
abbrev default_name : Bytes
default_name = codes "noname"

-- `SayHelloTo`, at the time `now`.
unfoldable pub say_hello_to : ℕ → HelloRequestBody → HelloResponseBody
say_hello_to now body = record {
  text = codes "Hello to " ++ (body.name ++ codes " from Userver");
  current_time = some now;
}

-- The name of the body, or the argument if the body has the default.
unfoldable choose_name : HttpRequest → HelloRequestBody → HelloRequestBody
choose_name request body =
    if bytes_beq body.name default_name && request.has_arg "name"
    then record { name = request.get_arg "name" }
    else body

-- `Handler::HandleRequestThrow`, up to the printing of the response; `body` is the outcome of parsing.
unfoldable pub handle :
    ℕ → HttpRequest → Result Exception HelloRequestBody → Outcome HelloResponseBody
unfolding choose_name say_hello_to
handle now request (err e) = err e
handle now request (ok body) = ok (record {
  status = none;
  headers = ("Content-Type", codes "application/json") ∷ [];
  payload = value (say_hello_to now (choose_name request body));
})
