-- ===== src/Http/Parser.antt =====
-- src/http/parser.h and parser.cpp: requests and responses, and their parsers.
--
-- A stringstream in good state is the text that is left in it. `headers_t` is an association list,
-- listed in the order in which the map iterates.
pub mod Safety
pub mod Accepted
pub mod Tests
use nimlib.Prelude.{
  ℕ, zero, suc, ◌+◌, ◌-◌, ◌≡◌, Bool, true, false, ◌&&◌, ◌||◌, Option, none, some, List, [], ◌∷◌,
  ◌++◌, ltb, leb, ◌==◌, if◌then◌else◌, get_or, take, drop, length, map,
}
use nimlib.Prelude.Text.{Text, Text-discrete, codes, text_eq, is_space, to_lower, decimal}
use nimlib.Prelude.Map.{find, insert}
use nimlib.Utils.StateManager.{is_empty}
use nimlib.Utils.Helpers.{sub_size, substr, find_sub, split}

abbrev pub Headers : Type 0
Headers = List (Text × List Text)

pub record Request : Type 0 where
  pub method : Text
  pub target : Text
  pub version : Text
  pub headers : Headers
  pub body : Text

-- `status` is a `short` that holds a status code.
pub record Response : Type 0 where
  pub version : Text
  pub status : ℕ
  pub reason : Text
  pub headers : Headers
  pub body : Text

abbrev pub white_space : ℕ → Bool
white_space c = c == 32 || c == 9

unfoldable pub validate_method : Text → Bool
validate_method m =
    text_eq m (codes "GET")
    || text_eq m (codes "POST")
    || text_eq m (codes "PUT")
    || text_eq m (codes "DELETE")
    || text_eq m (codes "PATCH")
    || text_eq m (codes "HEAD")
    || text_eq m (codes "OPTIONS")
    || text_eq m (codes "TRACE")
    || text_eq m (codes "CONNECT")

unfoldable pub validate_target : Text → Bool
validate_target target = true

unfoldable pub validate_version : Text → Bool
validate_version version = text_eq version (codes "HTTP/1.1")

unfoldable pub body_length : Headers → ℕ
body_length headers = 1

-- What `stream >> word` skips, reads and leaves.
unfoldable pub drop_spaces : Text → Text
drop_spaces [] = []
drop_spaces (c ∷ s) = if is_space c then drop_spaces s else c ∷ s

unfoldable pub take_word : Text → Text
take_word [] = []
take_word (c ∷ s) = if is_space c then [] else c ∷ take_word s

unfoldable pub drop_word : Text → Text
drop_word [] = []
drop_word (c ∷ s) = if is_space c then c ∷ s else drop_word s

-- `content_length_s >> content_length_i; content_length_s.eof()`: white space, a sign and digits
-- are read, and the end is met when nothing else is left.
abbrev pub drop_sign : Text → Text
drop_sign [] = []
drop_sign (c ∷ s) = if c == b'-' || c == b'+' then s else c ∷ s

unfoldable pub drop_digits : Text → Text
drop_digits [] = []
drop_digits (c ∷ s) = if leb b'0' c && leb c b'9' then drop_digits s else c ∷ s

unfoldable pub reads_integer : Text → Bool
reads_integer value = is_empty (drop_digits (drop_sign (drop_spaces value)))

abbrev pub is_some : {A : Type 0} → Option A → Bool
is_some none = false
is_some (some a) = true

abbrev pub content_length : Text
content_length = codes "content-length"

abbrev pub transfer_encoding : Text
transfer_encoding = codes "transfer-encoding"

unfoldable pub content_length_validator : Text → Headers → Bool
content_length_validator value headers =
    if is_some (find Text-discrete transfer_encoding headers)
    then false
    else if is_some (find Text-discrete content_length headers)
    then false
    else reads_integer value

unfoldable pub transfer_encoding_validator : Text → Headers → Bool
transfer_encoding_validator value headers =
    if is_some (find Text-discrete content_length headers) then false else true

abbrev pub header_validators : List (Text × (Text → Headers → Bool))
header_validators =
    (content_length, content_length_validator)
    ∷ (transfer_encoding, transfer_encoding_validator)
    ∷ []

abbrev pub prepend : ℕ → Option Text → Option Text
prepend c none = none
prepend c (some s) = some (c ∷ s)

-- The loop over the header's name: no white space, lower case.
unfoldable pub header_name : Text → Option Text
header_name [] = some []
header_name (c ∷ s) = if white_space c then none else prepend (to_lower c) (header_name s)

-- `while (white_space(line[b])) b++`: by how much `b` grows. The byte past the end is 0.
unfoldable pub count_blanks : Text → ℕ
count_blanks [] = 0
count_blanks (c ∷ s) = if white_space c then count_blanks s + 1 else 0

-- `while (white_space(line[e])) e--`, which stops at the colon at the latest.
unfoldable pub back_blanks : Text → ℕ → ℕ
back_blanks s zero = zero
back_blanks s (suc e) = if white_space (get_or s (suc e) 0) then back_blanks s e else suc e

unfoldable pub header_value : Text → ℕ → Text
header_value line colon_pos =
    let begin : ℕ = colon_pos + 1 + count_blanks (drop (colon_pos + 1) line) in
    let end : ℕ = back_blanks line (length line - 1) in substr line begin (sub_size (end + 1) begin)

-- The values that `headers[header]` holds; a key that is missing holds none.
abbrev pub values_of : Option (List Text) → List Text
values_of none = []
values_of (some vs) = vs

-- `headers[header].push_back(v)`.
unfoldable pub push_value : Text → Headers → Text → Headers
push_value header headers v =
    insert Text-discrete header (values_of (find Text-discrete header headers) ++ v ∷ []) headers

unfoldable pub push_values : Text → Headers → List Text → Headers
push_values header headers [] = headers
push_values header headers (v ∷ vs) = push_values header (push_value header headers v) vs

abbrev pub accepts : Option (Text → Headers → Bool) → Text → Headers → Bool
accepts none value headers = true
accepts (some valid) value headers = valid value headers

-- The part of the tokenizer behind the check of the name.
unfoldable pub add_header : Text → Text → Headers → Option Headers
add_header header value headers =
    if accepts (find Text-discrete header header_validators) value headers
    then some (push_values header headers (split value (codes ",") []))
    else none

abbrev pub named : Option Text → Text → Headers → Option Headers
named none value headers = none
named (some header) value headers = add_header header value headers

abbrev pub at_colon : Option ℕ → Text → Headers → Option Headers
at_colon none line headers = none
at_colon (some pos) line headers =
    named (header_name (take pos line)) (header_value line pos) headers

-- `header_tokenizer`: the headers with those of the line, or `none` where it returns false.
unfoldable pub header_tokenizer : Text → Headers → Option Headers
header_tokenizer line headers = at_colon (find_sub (codes ":") line) line headers

-- `request_line_tokenizer`. The stream has met its end when nothing is left behind the version.
unfoldable pub request_line_tokenizer : Text → Option (Text × Text × Text)
request_line_tokenizer line =
    let first = drop_spaces line in
    let second = drop_spaces (drop_word first) in
    let third = drop_spaces (drop_word second) in
    let method = take_word first in
    let target = take_word second in
    let version = take_word third in
    if is_empty (drop_word third)
      && validate_method method
      && validate_target target
      && validate_version version
    then some (method, target, version)
    else none

abbrev pub longer : ℕ → Option (Text × Text) → Option (Text × Text)
longer c none = none
longer c (some (l, r)) = some (c ∷ l, r)

-- `std::getline(stream, line, '\r')`: the line and what is left; `none` where the end comes first.
unfoldable pub getline : Text → Option (Text × Text)
getline [] = none
getline (c ∷ s) = if c == 13 then some ([], s) else longer c (getline s)

-- A line with its `\r\n`, and what is left in the stream. Without a `\r` all is read and `peek`
-- meets the end; another byte behind the `\r` stays in the stream.
abbrev pub newline : Text → Text → Option Text × Text
newline line [] = (none, [])
newline line (c ∷ s) = if c == 10 then (some line, s) else (none, c ∷ s)

abbrev pub ended : Option (Text × Text) → Option Text × Text
ended none = (none, [])
ended (some (line, s)) = newline line s

unfoldable pub read_line : Text → Option Text × Text
read_line s = ended (getline s)

-- One round of the loop over the headers, with the rounds that follow: a line that cannot be read or
-- is refused ends the parse, the empty line ends the loop.
abbrev pub Rounds : Type 0
Rounds = Headers → Text → Option Headers × Text

abbrev pub resume : Rounds → Option Headers → Text → Option Headers × Text
resume rest none r = (none, r)
resume rest (some headers) r = rest headers r

unfoldable pub header_round : Rounds → Headers → Option Text × Text → Option Headers × Text
header_round rest headers (none, r) = (none, r)
header_round rest headers (some [], r) = (some headers, r)
header_round rest headers (some (c ∷ cs), r) = resume rest (header_tokenizer (c ∷ cs) headers) r

-- The loop. A line takes two bytes at least, so that the length of the stream and one more are fuel
-- enough.
unfoldable pub parse_headers : ℕ → Headers → Text → Option Headers × Text
parse_headers zero headers s = (none, s)
parse_headers (suc fuel) headers s = header_round (parse_headers fuel) headers (read_line s)

-- `std::getline(stream, body, '\0')`: the body and what is left.
unfoldable pub read_body : Text → Text × Text
read_body [] = ([], [])
read_body (c ∷ s) = if c == 0 then ([], s) else (c ∷ (read_body s).0, (read_body s).1)

unfoldable pub finish : Text × Text × Text → Option Headers × Text → Option Request × Text
finish (method, target, version) (none, r) = (none, r)
finish (method, target, version) (some headers, r) =
    let (body, left) = if ltb 0 (body_length headers) then read_body r else ([], r) in
    (
      some (record {
        method = method;
        target = target;
        version = version;
        headers = headers;
        body = body;
      }),
      left,
    )

unfoldable pub with_first : Option (Text × Text × Text) → Text → Option Request × Text
with_first none r = (none, r)
with_first (some first) r = finish first (parse_headers (length r + 1) [] r)

unfoldable pub with_request_line : Option Text × Text → Option Request × Text
with_request_line (none, r) = (none, r)
with_request_line (some line, r) = with_first (request_line_tokenizer line) r

-- `parse_request`: the request, if there is one, and what is left in the stream.
unfoldable pub parse_request : Text → Option Request × Text
parse_request s = with_request_line (read_line s)

-- `parse_response`.
abbrev pub crlf : Text
crlf = 13 ∷ 10 ∷ []

unfoldable pub print_values : List Text → Text
print_values [] = []
print_values (v ∷ vs) = v ++ (codes ", " ++ print_values vs)

unfoldable pub print_headers : Headers → Text
print_headers [] = []
print_headers ((name, vs) ∷ hs) =
    name ++ (codes ": " ++ (print_values vs ++ (crlf ++ print_headers hs)))

unfoldable pub parse_response : Response → Option Text
parse_response r = some (
    r.version
    ++ (codes " "
        ++ (decimal r.status
            ++ (codes " "
                ++ (r.reason ++ (crlf ++ (print_headers r.headers ++ (crlf ++ r.body))))))))
