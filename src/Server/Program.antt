-- ===== src/Server/Program.antt =====
-- A connection of the server with the handler and the routes that src/http/http.cpp sets up.
use nimlib.Prelude.Text.{Text}
use nimlib.Http.Router.{Router}
