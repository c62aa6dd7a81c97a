-- ===== src/Http/Parser/Tests.antt =====
-- A request through src/http/parser.cpp.
use nimlib.Prelude.{◌≡◌, refl, [], ◌∷◌, some, none, ◌++◌}
use nimlib.Prelude.Text.{Text, codes, Text-discrete}
use nimlib.Prelude.Map.{find, insert}
use nimlib.Utils.Helpers.{split, split_loop, piece, find_from, find_sub, count_spaces, back_spaces}
use nimlib.Http.Parser.Accepted.{IsAccepted, parse_request-IsAccepted}
use nimlib.Http.Parser.{
  Request, parse_request, request_line_tokenizer, header_tokenizer, getline, read_line,
  parse_headers, finish, with_request_line, with_first, header_round, read_body, body_length,
  header_name, header_value, count_blanks, back_blanks, add_header, push_values, push_value,
  content_length_validator, transfer_encoding_validator, validate_method, validate_target,
  validate_version, drop_spaces, drop_word, take_word, drop_digits, reads_integer, crlf,
}

parser : Unit {0}
unfolding Text-discrete parse_request with_request_line with_first header_round finish parse_headers
    request_line_tokenizer header_tokenizer getline read_line read_body body_length header_name
    header_value count_blanks back_blanks add_header push_values push_value content_length_validator
    transfer_encoding_validator validate_method validate_target validate_version drop_spaces
    drop_word take_word drop_digits reads_integer split split_loop piece find_from find_sub
    count_spaces back_spaces find insert
parser = tt

abbrev pub get_text : Text
get_text =
    codes "GET /a/b HTTP/1.1"
    ++ (crlf ++ (codes "Host:  x , y " ++ (crlf ++ (crlf ++ codes "body"))))

abbrev pub got : Request
got = record {
  method = codes "GET";
  target = codes "/a/b";
  version = codes "HTTP/1.1";
  headers = (codes "host", codes "x" ∷ (codes "y" ∷ [])) ∷ [];
  body = codes "body";
}

pub parse_get : parse_request get_text ≡ (some got, [])
unfolding parser
parse_get = refl

pub parse_empty : parse_request [] ≡ (none, [])
unfolding parser
parse_empty = refl

parse_request-IsAccepted_example : IsAccepted got
parse_request-IsAccepted_example = parse_request-IsAccepted get_text parse_get
