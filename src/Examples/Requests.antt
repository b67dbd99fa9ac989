-- ===== src/Examples/Requests.antt =====
-- Concrete requests, and a handler that answers.
use ginblade.Prelude.{String, false, [], str_eq, if◌then◌else◌}
use ginblade.Context.{background}
use ginblade.Handler.{Binder, refused, bound}
use ginblade.Response.{malformed}
use ginblade.Prelude.Int.{pos}
use ginblade.Http.{Gin, Handler, finished, panicked}

-- A request with one header.
abbrev pub request : String → String → String → String → Gin
request method path name value = record {
  method = method;
  path = path;
  client_ip = "10.0.0.1";
  header = λ key. if str_eq key name then value else "";
  ctx = background;
  keys = [];
  response_header = [];
  status = 200;
  bodies = [];
  aborted = false;
  log = [];
}

abbrev pub teapot : {W : Type 0} → Handler W
teapot c w = finished (record c { status = 418 }) w

abbrev pub crash : {W : Type 0} → Handler W
crash c w = panicked "index out of range" c w

-- A binder that finds no body and no query.
abbrev pub no_binder : Binder
no_binder = record {
  create_example = λ c. refused (malformed "EOF");
  list_examples = λ c. refused (malformed "EOF");
  enqueue_task = λ c. refused (malformed "EOF");
  create_token = λ c. refused (malformed "EOF");
}

-- A binder that finds every request.
abbrev pub demo_binder : Binder
demo_binder = record {
  create_example = λ c. bound (record { name = "demo" });
  list_examples = λ c. bound (record { limit = pos 0; offset = pos 0 });
  enqueue_task = λ c. bound (record { name = "demo" });
  create_token = λ c. bound (record { subject = "alice" });
}
