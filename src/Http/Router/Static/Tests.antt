-- ===== src/Http/Router/Static/Tests.antt =====
-- A short file sent in one chunk, for src/http/router.cpp.
use nimlib.Prelude.{◌+◌, ◌≡◌, refl, true, none, some, [], ◌∷◌, ◌++◌, length}
use nimlib.Prelude.Text.{Text, Text-discrete, codes}
use nimlib.Prelude.Map.{find}
use nimlib.Constants.{finished_no_wait}
use nimlib.Http.Parser.{Request, Response}
use nimlib.Http.Router.{Router}
use nimlib.Http.Router.Static.{FileSystem, RouteHandler}
use nimlib.Http.Router.Static.Transfer.{joined, ending, frames, chunk_count}
use nimlib.Http.Router.Static.Delivery.{deliver, deliver_lem}

abbrev source : Text
source = codes "abc"

abbrev one_file : FileSystem
one_file = record {
  is_absolute = λ f. true;
  exists = λ f. true;
  is_regular_file = λ f. true;
  extension = λ f. codes ".mp4";
  file_size = λ f. some (length source);
  contents = λ f. some source;
}

abbrev request : Request
request = record {
  method = codes "GET";
  target = codes "/v";
  version = codes "HTTP/1.1";
  headers = [];
  body = [];
}

abbrev fresh_response : Response
fresh_response = record {
  version = codes "HTTP/1.1";
  status = 0;
  reason = [];
  headers = [];
  body = [];
}

abbrev serving : Router RouteHandler
serving = record {
  fallback_handler = none;
  handlers = [];
  target_to_file = (codes "/v", codes "/data/v.mp4") ∷ [];
  target_to_mime_type = (codes "/v", codes "video/mp4") ∷ [];
  last_served_chunk = [];
}

found : find Text-discrete (codes "/v") serving.target_to_file ≡ some (codes "/data/v.mp4")
unfolding find Text-discrete
found = refl

fresh : find Text-discrete (codes "/data/v.mp4") serving.last_served_chunk ≡ none
unfolding find
fresh = refl

deliver_example :
    ((r : Router RouteHandler) × (deliver one_file request fresh_response
          (chunk_count source + 1)
          serving
        ≡ some (frames source 0 (chunk_count source) ++ ending, some finished_no_wait, r))
      × (find Text-discrete (codes "/data/v.mp4") r.last_served_chunk ≡ none))
    × (joined source (chunk_count source) ≡ source)
deliver_example =
    deliver_lem one_file request fresh_response (codes "/data/v.mp4") source refl refl serving found
      fresh
