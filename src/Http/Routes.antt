-- ===== src/Http/Routes.antt =====
-- The routes of the constructor of `HttpHandler` in src/http/http.cpp.
--
-- `report` is what `generate_stats_report` of the store of metrics gives when the request is handled,
-- and `none` where it faults. The two paths of the static files are those of the source, which stand
-- for files to be named.
pub mod Tests
use nimlib.Prelude.{
  Bool-cases, ℕ, ◌≡◌, refl, sym, Bool, true, false, if◌then◌else◌, ite, Option, none, some, List,
  [], ◌∷◌, inl, inr,
}
use nimlib.Prelude.Text.{Text, Text-discrete, codes}
use nimlib.Constants.{HandlerState, finished_no_wait}
use nimlib.Http.Parser.{Request, Response, push_value}
use nimlib.Http.Router
use nimlib.Http.Router.{
  Router, Params, Node, node, child, nil, empty_router, segments, get, fallback, find_route,
  with_params, chosen,
}
use nimlib.Http.Router.Static.{
  FileSystem, RouteHandler, function, Served, serve_static, serve_static_big, get_content_type,
  record_file, answered_by,
}

-- The lambda `metrics_handler`.
unfoldable pub metrics_page :
    Option Text → Request → Response → Params → Option (Option HandlerState × Response)
metrics_page none request response params = none
metrics_page (some report) request response params = some (
  some finished_no_wait,
  record response {
    status = 200;
    reason = codes "OK";
    headers = push_value (codes "content-type") response.headers (codes "text/plain");
    body = report;
  },
)

-- The lambda `fallback_router`.
unfoldable pub not_found : Request → Response → Params → Option (Option HandlerState × Response)
not_found request response params = some (
  some finished_no_wait,
  record response {
    status = 404;
    reason = codes "Not found";
    headers = push_value (codes "content-type") response.headers (codes "text/html; charset=UTF-8");
    body = codes "not found";
  },
)

abbrev pub big_path : Text
big_path = codes "/absolute/path/to/big/file"

abbrev pub small_path : Text
small_path = codes "/absolute/path/to/small/file"

module _ (fs : FileSystem) where
  -- The two paths have no extension of a known type.
  pub record NoFiles : Type 0 where
    pub big : get_content_type fs big_path ≡ []
    pub small : get_content_type fs small_path ≡ []

-- A target whose segments are the empty one and `metrics`, as those of `/metrics` and `/metrics/`.
abbrev pub IsMetrics : Text → Type 0
IsMetrics target = segments target ≡ [] ∷ codes "metrics" ∷ []

abbrev pub is_metrics : List Text → Bool
is_metrics ([] ∷ s ∷ []) = ite (Text-discrete s (codes "metrics")) true false
is_metrics _ = false

abbrev pub is_get : Text → Bool
is_get method = ite (Text-discrete method (codes "GET")) true false

module _ (fs : FileSystem) (report : Option Text) where
  -- The constructor, step by step.
  abbrev pub with_pages : Router RouteHandler
  with_pages =
      (get (codes "/") (some (function not_found))
        (get (codes "/metrics") (some (function (metrics_page report))) empty_router).0).0

  abbrev pub with_files : Router RouteHandler
  with_files =
      (serve_static fs (codes "/files/small") small_path
        (serve_static_big fs (codes "/files/big") big_path with_pages).0).0

  unfoldable pub default_router : Router RouteHandler
  default_router = fallback (some (function not_found)) with_files

  -- The tree of the routes.
  abbrev pub pages : Node RouteHandler
  pages =
      node
        (child []
          (node
            (child (codes "metrics") (node nil (some (some (function (metrics_page report)))) [])
              nil)
            (some (some (function not_found))) [])
          nil)
        none []

  abbrev pub known : Router RouteHandler
  known = record {
    fallback_handler = some (function not_found);
    handlers = (codes "GET", pages) ∷ [];
    target_to_file = [];
    target_to_mime_type = [];
    last_served_chunk = [];
  }

  abbrev finish : Router RouteHandler → Router RouteHandler
  finish r = record r { fallback_handler = some (function not_found) }

  abbrev reached : List Text → Option (RouteHandler × Params)
  reached ss =
      with_params (chosen (find_route ss pages []).0 (some (function not_found)))
        (find_route ss pages []).1

  -- The pages, field by field.
  abbrev pub ok_page : Text → Response → Response
  ok_page text p = record {
    version = p.version;
    status = 200;
    reason = codes "OK";
    headers = push_value (codes "content-type") p.headers (codes "text/plain");
    body = text;
  }

  abbrev pub missing_page : Response → Response
  missing_page p = record {
    version = p.version;
    status = 404;
    reason = codes "Not found";
    headers = push_value (codes "content-type") p.headers (codes "text/html; charset=UTF-8");
    body = codes "not found";
  }

  abbrev pub reported : Option Text → Response → Option (Option HandlerState × Response)
  reported none p = none
  reported (some text) p = some (some finished_no_wait, ok_page text p)

  -- What a request is to be answered with: the report for a GET of `/metrics`, if there is one,
  -- `not found` for any other GET, and nothing for another method.
  unfoldable pub page_for : Request → Response → Option (Option HandlerState × Response)
  page_for q p =
      if is_get q.method
      then if is_metrics (segments q.target)
        then reported report p
        else some (some finished_no_wait, missing_page p)
      else some (none, p)

  abbrev pub served : Option (Option HandlerState × Response) → Served
  served = answered_by fs default_router

  -- The response to a GET when the report is `text`.
  abbrev pub get_page : Text → Request → Response → Response
  get_page text q p = if is_metrics (segments q.target) then ok_page text p else missing_page p

  pub page_for-get :
      (text : Text) (q : Request) (p : Response)
      → report ≡ some text
      → is_get q.method ≡ true
      → page_for q p ≡ some (some finished_no_wait, get_page text q p)
  unfolding page_for
  page_for-get text q p e b = elim (Bool-cases (is_metrics (segments q.target))) [
    | inl m ↦ rw (b, m, e) refl
    | inr m ↦ rw (b, m) refl
  ]
