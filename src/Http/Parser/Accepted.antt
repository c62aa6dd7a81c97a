-- ===== src/Http/Parser/Accepted.antt =====
-- The requests that src/http/parser.cpp accepts.
use nimlib.Prelude.{
  take, ◌++◌, ◌⊎◌, ◌||◌, Bool, ◌+◌, ◌≡◌, refl, sym, subst, ◌∙◌, ◌≢◌, inl, inr, true, false, Option,
  none, some, List, [], ◌∷◌, arith, length, All, Bool-cases,
}
use nimlib.Prelude.Text.{Text, Text-discrete, codes, is_space, text_eq}
use nimlib.Prelude.Map.{find}
use nimlib.Http.Parser.{
  Headers, Request, validate_method, validate_version, drop_spaces, take_word, drop_word,
  transfer_encoding, request_line_tokenizer, read_line, parse_headers, finish, with_request_line,
  with_first, parse_request,
}
use nimlib.Http.Parser.Safety.{IsFramed, header_tokenizer-IsFramed, parse_headers-keeps}

-- Bytes that no `>>` skips or stops at.
abbrev pub IsWord : Text → Type 0
IsWord s = All (λ c. is_space c ≡ false) s

take_word-IsWord : (s : Text) → IsWord (take_word s)
unfolding take_word
take_word-IsWord [] = tt
take_word-IsWord (c ∷ s) = elim (Bool-cases (is_space c)) [
  | inl t ↦ rw t tt
  | inr f ↦ rw f (f, take_word-IsWord s)
]

take_word-drop_spaces : (s : Text) → take_word (drop_spaces s) ≡ [] → drop_spaces s ≡ []
unfolding take_word drop_spaces
take_word-drop_spaces [] e = refl
take_word-drop_spaces (c ∷ s) e = ground (arith, take_word-drop_spaces s)

abbrev pub IsOneOf : Text → List Text → Type 0
IsOneOf m [] = ⊥
IsOneOf m (s ∷ ss) = (m ≡ s) ⊎ IsOneOf m ss

abbrev pub nine_methods : List Text
nine_methods =
    codes "GET"
    ∷ codes "POST"
    ∷ codes "PUT"
    ∷ codes "DELETE"
    ∷ codes "PATCH"
    ∷ codes "HEAD"
    ∷ codes "OPTIONS"
    ∷ codes "TRACE"
    ∷ codes "CONNECT"
    ∷ []

pub record IsAccepted (r : Request) : Type 0 where
  pub method : IsOneOf r.method nine_methods
  pub version : r.version ≡ codes "HTTP/1.1"
  pub target : IsWord r.target × (r.target ≢ [])
  pub headers : IsFramed r.headers

-- What holds of the three words of an accepted request line.
record IsFirst (m t v : Text) : Type 0 where
  method : IsOneOf m nine_methods
  version : v ≡ codes "HTTP/1.1"
  target : IsWord t × (t ≢ [])

equal_one : (m s : Text) → text_eq m s ≡ true → IsOneOf m (s ∷ [])
equal_one m s h = elim (Text-discrete m s) [ yes e ↦ inl e | no ne ↦ ground arith ]

IsOneOf-first : (m : Text) (ms ns : List Text) → IsOneOf m ms → IsOneOf m (ms ++ ns)
IsOneOf-first m [] ns h = absurd h
IsOneOf-first m (s ∷ ms) ns (inl e) = inl e
IsOneOf-first m (s ∷ ms) ns (inr h) = inr (IsOneOf-first m ms ns h)

IsOneOf-last : (m s : Text) (ms : List Text) → m ≡ s → IsOneOf m (ms ++ s ∷ [])
IsOneOf-last m s [] e = inl e
IsOneOf-last m s (x ∷ ms) e = inr (IsOneOf-last m s ms e)

or_equal :
    (m s : Text) (ms : List Text) (b : Bool)
    → (b ≡ true → IsOneOf m ms)
    → (b || text_eq m s) ≡ true
    → IsOneOf m (ms ++ s ∷ [])
or_equal m s ms b before h = elim (Text-discrete m s) [
  | yes e ↦ IsOneOf-last m s ms e
  | no ne ↦ IsOneOf-first m ms (s ∷ []) (before (ground arith))
]

method_lem : (m : Text) → validate_method m ≡ true → IsOneOf m nine_methods
unfolding validate_method
method_lem m = or_equal m (codes "CONNECT") (take 8 nine_methods) _ (
    or_equal m (codes "TRACE") (take 7 nine_methods) _ (
      or_equal m (codes "OPTIONS") (take 6 nine_methods) _ (
        or_equal m (codes "HEAD") (take 5 nine_methods) _ (
          or_equal m (codes "PATCH") (take 4 nine_methods) _ (
            or_equal m (codes "DELETE") (take 3 nine_methods) _ (
              or_equal m (codes "PUT") (take 2 nine_methods) _ (
                or_equal m (codes "POST") (take 1 nine_methods) _ (equal_one m (codes "GET")))))))))

version_lem : (v : Text) → validate_version v ≡ true → v ≡ codes "HTTP/1.1"
unfolding validate_version
version_lem v h = ground arith

-- With no second word there is no third.
target_ne :
    (s : Text)
    → take_word (drop_spaces s) ≡ []
    → take_word (drop_spaces (drop_word (drop_spaces s))) ≡ []
unfolding take_word drop_spaces drop_word
target_ne s e = rw (take_word-drop_spaces s e)

no_version : codes "HTTP/1.1" ≢ []
no_version e = cc

no_field : find {V = List Text} Text-discrete transfer_encoding [] ≡ none
unfolding find
no_field = refl

request_line_lem :
    (line : Text) {m t v : Text} → request_line_tokenizer line ≡ some (m, t, v) → IsFirst m t v
unfolding request_line_tokenizer
request_line_lem line {m} {t} {v} e =
    let second : Text = drop_spaces (drop_word (drop_spaces line)) in
    let third : Text = drop_spaces (drop_word second) in
    record {
      method = method_lem m (ground arith);
      version = version_lem v (ground arith);
      target = (
        subst IsWord (let q : take_word second ≡ t = ground arith in q) (take_word-IsWord second),
        λ z. no_version (
            sym (version_lem v (ground arith))
            ∙ (let q : v ≡ take_word third = ground arith in q)
            ∙ target_ne (drop_word (drop_spaces line))
                ((let q : take_word second ≡ t = ground arith in q) ∙ z)),
      );
    }

finish-IsAccepted :
    (m t v : Text) (parsed : Option Headers × Text) {r : Request} {left : Text}
    → IsFirst m t v
    → ((h : Headers) (s : Text) → parsed ≡ (some h, s) → IsFramed h)
    → finish (m, t, v) parsed ≡ (some r, left)
    → IsAccepted r
unfolding finish
finish-IsAccepted m t v (none, s) f k e = cc
finish-IsAccepted m t v (some h, s) f k e = ground (arith, f, k h s refl)

with_first-IsAccepted :
    (first : Option (Text × Text × Text)) (line s : Text) {r : Request} {left : Text}
    → request_line_tokenizer line ≡ first
    → with_first first s ≡ (some r, left)
    → IsAccepted r
unfolding with_first
with_first-IsAccepted none line s q e = cc
with_first-IsAccepted (some (m, t, v)) line s q e =
    finish-IsAccepted m t v (parse_headers (length s + 1) [] s) (request_line_lem line q)
      (λ h left.
        parse_headers-keeps IsFramed header_tokenizer-IsFramed (length s + 1) [] s h left
          (inl no_field))
      e

with_request_line-IsAccepted :
    (read : Option Text × Text) {r : Request} {left : Text}
    → with_request_line read ≡ (some r, left)
    → IsAccepted r
unfolding with_request_line
with_request_line-IsAccepted (none, s) e = cc
with_request_line-IsAccepted (some line, s) e =
    with_first-IsAccepted (request_line_tokenizer line) line s refl e

-- Every request that `parse_request` returns has one of the nine methods, the version HTTP/1.1, a
-- target that is not empty and holds no white space, and not both a content-length and a
-- transfer-encoding field.
pub parse_request-IsAccepted :
    (s : Text) {r : Request} {left : Text} → parse_request s ≡ (some r, left) → IsAccepted r
unfolding parse_request
parse_request-IsAccepted s e = with_request_line-IsAccepted (read_line s) e
