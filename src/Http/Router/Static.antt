-- ===== src/Http/Router/Static.antt =====
-- The static files of src/http/router.cpp: their registration, and the two handlers that serve them.
--
-- The handlers read and write the maps of the router that they are registered on, which is the one
-- that routes the request (a router with static files that is mounted by `sub_route` is left out).
pub mod Transfer
pub mod Delivery
mod Tests
use nimlib.Prelude.{
  ℕ, zero, suc, ◌+◌, ◌*◌, ◌/◌, ◌%◌, ◌≡◌, Bool, true, false, ◌&&◌, not, Option, none, some, List, [],
  ◌∷◌, ◌++◌, ◌==◌, length, if◌then◌else◌,
}
use nimlib.Prelude.Text.{Text, Text-discrete, codes, hexadecimal}
use nimlib.Prelude.Map.{find, insert, erase}
use nimlib.Constants.{HandlerState, finished_no_wait, recall}
use nimlib.Utils.StateManager.{is_empty}
use nimlib.Utils.Helpers.{read_chunk}
use nimlib.Http.Parser.{Request, Response, push_value, crlf}
use nimlib.Http.Router.{Router, Params, add, choose}

-- The file system, which the program only calls: what `std::filesystem` says of a path, and the
-- bytes that an `ifstream` reads from it, `none` where it cannot be opened. `file_size` throws where
-- it gives `none`.
pub record FileSystem : Type 0 where
  pub is_absolute : Text → Bool
  pub exists : Text → Bool
  pub is_regular_file : Text → Bool
  pub extension : Text → Text
  pub file_size : Text → Option ℕ
  pub contents : Text → Option Text

-- The function objects of the table: one that the client gives, or one of the two that the router
-- makes. A client's function returns its state and the response that it has written.
pub data RouteHandler : Type 0 where
  function : (Request → Response → Params → Option (Option HandlerState × Response)) → RouteHandler
  static_file : RouteHandler
  static_big_file : RouteHandler

abbrev pub text_or_empty : Option Text → Text
text_or_empty none = []
text_or_empty (some t) = t

abbrev pub ext_to_mime_type : List (Text × Text)
ext_to_mime_type =
    (codes ".jpg", codes "image/jpeg")
    ∷ (codes ".jpeg", codes "image/jpeg")
    ∷ (codes ".mp4", codes "video/mp4")
    ∷ []

abbrev pub value_or_new : Text → List (Text × Text) → Option Text → Text × List (Text × Text)
value_or_new k m none = ([], insert Text-discrete k [] m)
value_or_new k m (some v) = (v, m)

-- `m[k]`: the value, and the map, in which a missing key is put with the empty text.
unfoldable pub subscript : Text → List (Text × Text) → Text × List (Text × Text)
subscript k m = value_or_new k m (find Text-discrete k m)

abbrev pub chunk_size : ℕ
chunk_size = 1024 * 300

-- One chunk of the chunked transfer coding.
unfoldable pub frame : Text → Text
frame buffer = hexadecimal (length buffer) ++ (crlf ++ (buffer ++ crlf))

-- The loop over the chunks, with what it has written to `body`: it stops where there is no chunk, or
-- at an even chunk number. Two rounds reach such a number (`Transfer.chunk_loop-Round`).
unfoldable pub chunk_loop : ℕ → Text → ℕ → ℕ → Text → Text × ℕ
chunk_loop zero source file_size chunk_number body = (body, chunk_number)
chunk_loop (suc fuel) source file_size chunk_number body =
    elim (read_chunk source file_size chunk_size chunk_number) [
      | none ↦ (body, chunk_number)
      | some buffer ↦
          let rest = chunk_loop fuel source file_size (chunk_number + 1) (body ++ frame buffer) in
          if (chunk_number + 1) % 2 == 0 then (body ++ frame buffer, chunk_number + 1) else rest
    ]

abbrev pub expected_chunk_count : ℕ → ℕ
expected_chunk_count file_size =
    file_size / chunk_size + (if file_size % chunk_size == 0 then 0 else 1)

abbrev pub number_or_zero : Option ℕ → ℕ
number_or_zero none = 0
number_or_zero (some n) = n

abbrev pub last_chunk : Text
last_chunk = codes "0" ++ (crlf ++ crlf)

-- A handler's state, the response and the router behind a call. `none` is an exception.
abbrev pub Served : Type 0
Served = Option (Option HandlerState × Response × Router RouteHandler)

module _ (fs : FileSystem) where
  unfoldable pub get_content_type : Text → Text
  get_content_type file = text_or_empty (find Text-discrete (fs.extension file) ext_to_mime_type)

  unfoldable pub valid_static_file : Text → Bool
  valid_static_file file =
      fs.is_absolute file
      && fs.exists file
      && fs.is_regular_file file
      && not (is_empty (get_content_type file))

  abbrev pub record_file : Text → Text → Router RouteHandler × Bool → Router RouteHandler × Bool
  record_file target file (r, false) = (r, false)
  record_file target file (r, true) = (
    record r {
      target_to_file = insert Text-discrete target file r.target_to_file;
      target_to_mime_type =
          insert Text-discrete target (get_content_type file) r.target_to_mime_type;
    },
    true,
  )

  unfoldable pub serve_static : Text → Text → Router RouteHandler → Router RouteHandler × Bool
  serve_static target file r =
      if valid_static_file file
      then record_file target file (add (codes "GET") target (some static_file) r)
      else (r, false)

  unfoldable pub serve_static_big : Text → Text → Router RouteHandler → Router RouteHandler × Bool
  serve_static_big target file r =
      if valid_static_file file
      then record_file target file (add (codes "GET") target (some static_big_file) r)
      else (r, false)

  -- The lambda of `serve_static`.
  unfoldable pub static_handler : Request → Response → Router RouteHandler → Served
  static_handler request response r =
      let (file, files) = subscript request.target r.target_to_file in
      let (content_type, types) = subscript request.target r.target_to_mime_type in
      some (
        some finished_no_wait,
        record response {
          status = 200;
          reason = codes "OK";
          headers = push_value (codes "content-type") response.headers content_type;
          body = text_or_empty (fs.contents file);
        },
        record r { target_to_file = files; target_to_mime_type = types },
      )

  -- The end of `static_file_handler_big`, behind the loop.
  unfoldable pub close_chunks : Text → ℕ → Response → Router RouteHandler → Text × ℕ → Served
  close_chunks file file_size response r (body, chunk_number) =
      if chunk_number == expected_chunk_count file_size
      then some (
        some finished_no_wait,
        record response { body = body ++ last_chunk },
        record r { last_served_chunk = erase Text-discrete file r.last_served_chunk },
      )
      else some (
        some recall,
        record response { body = body },
        record r { last_served_chunk = insert Text-discrete file chunk_number r.last_served_chunk },
      )

  -- The loop from chunk `first` on, where the size of the file is known.
  abbrev pub send_chunks : Text → Response → Router RouteHandler → ℕ → Option ℕ → Served
  send_chunks file response r first none = none
  send_chunks file response r first (some size) =
      close_chunks file size response r
        (chunk_loop 2 (text_or_empty (fs.contents file)) size first [])

  unfoldable pub static_file_handler_big : Request → Response → Router RouteHandler → Served
  static_file_handler_big request response r =
      let (file, files) = subscript request.target r.target_to_file in
      let (content_type, types) = subscript request.target r.target_to_mime_type in
      let first : ℕ = number_or_zero (find Text-discrete file r.last_served_chunk) in
      let headers =
        push_value (codes "transfer-encoding")
          (push_value (codes "content-type") response.headers content_type) (codes "chunked") in
      send_chunks file (record response { status = 200; reason = codes "OK"; headers = headers })
        (record r { target_to_file = files; target_to_mime_type = types }) first (fs.file_size file)

  -- The call of a function object of the table.
  abbrev pub answered_by : Router RouteHandler → Option (Option HandlerState × Response) → Served
  answered_by r none = none
  answered_by r (some (state, response)) = some (state, response, r)

  unfoldable pub invoke : RouteHandler → Request → Response → Params → Router RouteHandler → Served
  invoke (function f) request response params r = answered_by r (f request response params)
  invoke static_file request response params r = static_handler request response r
  invoke static_big_file request response params r = static_file_handler_big request response r

  abbrev pub call_chosen :
      Request → Response → Router RouteHandler → Option (RouteHandler × Params) → Served
  call_chosen request response r none = some (none, response, r)
  call_chosen request response r (some (h, params)) = invoke h request response params r

  -- `Router::route`.
  unfoldable pub route : Request → Response → Router RouteHandler → Served
  route request response r = call_chosen request response r (choose r request.method request.target)
