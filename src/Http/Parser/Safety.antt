-- ===== src/Http/Parser/Safety.antt =====
-- What holds of every request that src/http/parser.cpp accepts.
use nimlib.Prelude.{
  ℕ, zero, suc, ◌≡◌, refl, sym, ap, subst, ◌∙◌, ◌≢◌, ◌⊎◌, inl, inr, true, Option, none, some, List,
  [], ◌∷◌, ◌++◌, arith, length, Bool-cases, Option-cases, take,
}
use nimlib.Prelude.Text.{Text, Text-discrete, codes}
use nimlib.Prelude.Map.{find, find-insert_ne}
use nimlib.Utils.Helpers.{split, find_sub}
use nimlib.Http.Parser.{
  Headers, content_length, transfer_encoding, content_length_validator, transfer_encoding_validator,
  header_validators, header_name, header_value, values_of, push_value, push_values, accepts,
  add_header, header_tokenizer, read_line, parse_headers, Rounds, resume, header_round,
}

-- At most one of the two fields that say how long the body is.
abbrev pub IsFramed : Headers → Type 0
IsFramed h =
    (find Text-discrete transfer_encoding h ≡ none) ⊎ (find Text-discrete content_length h ≡ none)

lengths_differ : content_length ≢ transfer_encoding
lengths_differ e = absurd (omega (arith, ap length e))

push_values-find :
    (k header : Text) (h : Headers) (vs : List Text)
    → header ≢ k
    → find Text-discrete k (push_values header h vs) ≡ find Text-discrete k h
unfolding push_values push_value
push_values-find k header h [] ne = refl
push_values-find k header h (v ∷ vs) ne =
    push_values-find k header (push_value header h v) vs ne
    ∙ find-insert_ne Text-discrete header k (values_of (find Text-discrete header h) ++ v ∷ []) h ne

module _ (value : Text) (h : Headers) where
  content_length_needs :
      content_length_validator value h ≡ true
      → (find Text-discrete transfer_encoding h ≡ none)
        × (find Text-discrete content_length h ≡ none)
  unfolding content_length_validator
  content_length_needs e = ground arith

  transfer_encoding_needs :
      transfer_encoding_validator value h ≡ true → find Text-discrete content_length h ≡ none
  unfolding transfer_encoding_validator
  transfer_encoding_needs e = ground arith

  validator_of :
      (header : Text)
      → header ≢ content_length
      → header ≢ transfer_encoding
      → find Text-discrete header header_validators ≡ none
  unfolding find
  validator_of header p q = ground arith

  -- The line is accepted by its validator, and its values are pushed.
  add_header-accepts :
      (header : Text) (more : Headers)
      → add_header header value h ≡ some more
      → (accepts (find Text-discrete header header_validators) value h ≡ true)
        × (more ≡ push_values header h (split value (codes ",") []))
  unfolding add_header
  add_header-accepts header more e =
      elim (Bool-cases (accepts (find Text-discrete header header_validators) value h)) [
        | inl t ↦ (t, cc (rw t at e))
        | inr f ↦ cc (rw f at e)
      ]

  framed_by_length :
      (header : Text) (more : Headers)
      → header ≡ content_length
      → add_header header value h ≡ some more
      → find Text-discrete transfer_encoding more ≡ none
  unfolding find Text-discrete
  framed_by_length header more p e =
      let (t, m) = add_header-accepts header more e in
      let t' : accepts (find Text-discrete content_length header_validators) value h ≡ true =
        rw p at t in
      ap (find Text-discrete transfer_encoding) m
      ∙ push_values-find transfer_encoding header h (split value (codes ",") [])
          (λ q. lengths_differ (sym p ∙ q))
      ∙ (content_length_needs t').0

  framed_by_encoding :
      (header : Text) (more : Headers)
      → header ≡ transfer_encoding
      → add_header header value h ≡ some more
      → find Text-discrete content_length more ≡ none
  unfolding find Text-discrete
  framed_by_encoding header more p e =
      let (t, m) = add_header-accepts header more e in
      let t' : accepts (find Text-discrete transfer_encoding header_validators) value h ≡ true =
        rw p at t in
      ap (find Text-discrete content_length) m
      ∙ push_values-find content_length header h (split value (codes ",") [])
          (λ q. lengths_differ (sym q ∙ p))
      ∙ transfer_encoding_needs t'

  add_header-IsFramed_rest :
      (header : Text) (more : Headers)
      → header ≢ content_length
      → header ≢ transfer_encoding
      → IsFramed h
      → add_header header value h ≡ some more
      → IsFramed more
  add_header-IsFramed_rest header more p q f e =
      let (t, m) = add_header-accepts header more e in
      rw
        (
          m,
          push_values-find transfer_encoding header h (split value (codes ",") []) q,
          push_values-find content_length header h (split value (codes ",") []) p,
        )
        f

  add_header-IsFramed :
      (header : Text) (more : Headers)
      → IsFramed h
      → add_header header value h ≡ some more
      → IsFramed more
  add_header-IsFramed header more f e = elim (Text-discrete header content_length) [
    | yes p ↦ inl (framed_by_length header more p e)
    | no p ↦ elim (Text-discrete header transfer_encoding) [
      | yes q ↦ inr (framed_by_encoding header more q e)
      | no q ↦ add_header-IsFramed_rest header more p q f e
    ]
  ]

pub header_tokenizer-IsFramed :
    (line : Text) (h more : Headers)
    → IsFramed h
    → header_tokenizer line h ≡ some more
    → IsFramed more
unfolding header_tokenizer
header_tokenizer-IsFramed line h more f e = elim (Option-cases (find_sub (codes ":") line)) [
  | inl n ↦ cc (rw n at e)
  | inr (pos, p) ↦ elim (Option-cases (header_name (take pos line))) [
    | inl n ↦ cc (rw (p, n) at e)
    | inr (name, q) ↦ add_header-IsFramed (header_value line pos) h name more f (rw (p, q) at e)
  ]
]

-- What every accepted line keeps holds behind the loop.
module _ {κ} (P : Headers → Type κ)
    (keeps : (line : Text) (h more : Headers)
      → P h
      → header_tokenizer line h ≡ some more
      → P more) where
  resume-keeps :
      (rest : Rounds) (o : Option Headers) (r : Text) (h : Headers) (line : Text) (more : Headers)
      (left : Text)
      → ((h' : Headers) (s : Text) → P h' → rest h' s ≡ (some more, left) → P more)
      → P h
      → header_tokenizer line h ≡ o
      → resume rest o r ≡ (some more, left)
      → P more
  resume-keeps rest none r h line more left ih p o e = cc
  resume-keeps rest (some h') r h line more left ih p o e = ih h' r (keeps line h h' p o) e

  header_round-keeps :
      (rest : Rounds) (h : Headers) (read : Option Text × Text) (more : Headers) (left : Text)
      → ((h' : Headers) (s : Text) → P h' → rest h' s ≡ (some more, left) → P more)
      → P h
      → header_round rest h read ≡ (some more, left)
      → P more
  unfolding header_round
  header_round-keeps rest h (none, r) more left ih p e = cc
  header_round-keeps rest h (some [], r) more left ih p e =
      let same : h ≡ more = cc in subst P same p
  header_round-keeps rest h (some (c ∷ cs), r) more left ih p e =
      resume-keeps rest (header_tokenizer (c ∷ cs) h) r h (c ∷ cs) more left ih p refl e

  pub parse_headers-keeps :
      (fuel : ℕ) (h : Headers) (s : Text) (more : Headers) (left : Text)
      → P h
      → parse_headers fuel h s ≡ (some more, left)
      → P more
  unfolding parse_headers
  parse_headers-keeps zero h s more left p e = cc
  parse_headers-keeps (suc fuel) h s more left p e =
      header_round-keeps (parse_headers fuel) h (read_line s) more left
        (λ h' r. parse_headers-keeps fuel h' r more left) p e
