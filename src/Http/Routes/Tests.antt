-- ===== src/Http/Routes/Tests.antt =====
-- The routes of src/http/http.cpp over a file system without files.
use nimlib.Prelude.{refl, false, none, []}
use nimlib.Prelude.Text.{codes, Text-discrete}
use nimlib.Prelude.Map.{find}
use nimlib.Http.Parser.{Response}
use nimlib.Http.Router.Static.{FileSystem, get_content_type}
use nimlib.Http.Routes.{NoFiles}

abbrev pub no_files : FileSystem
no_files = record {
  is_absolute = λ path. false;
  exists = λ path. false;
  is_regular_file = λ path. false;
  extension = λ path. [];
  file_size = λ path. none;
  contents = λ path. none;
}

pub no_files-NoFiles : NoFiles no_files
unfolding get_content_type find Text-discrete
no_files-NoFiles = record { big = refl; small = refl }

abbrev blank : Response
blank = record { version = codes "HTTP/1.1"; status = 0; reason = []; headers = []; body = [] }
