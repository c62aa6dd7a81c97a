-- ===== src/Http/Router/Static/Delivery.antt =====
-- The calls of `static_file_handler_big` of src/http/router.cpp that serve one big file.
use nimlib.Prelude.{
  ℕ, zero, suc, ◌+◌, ◌-◌, ◌*◌, ◌≤◌, ◌<◌, ◌≡◌, sym, ap, ◌∙◌, true, false, Option, none, some, [],
  ◌++◌, arith, ◌==◌, length, append_assoc, dec_lt, ==_iff, take-length,
}
use nimlib.Prelude.Text.{Text, Text-discrete, codes}
use nimlib.Prelude.Map.{find, insert, erase, find-insert_self, find-erase_self}
use nimlib.Constants.{HandlerState, finished_no_wait, recall}
use nimlib.Http.Parser.{Request, Response, push_value}
use nimlib.Http.Router.{Router}
use nimlib.Http.Router.Static.{
  FileSystem, RouteHandler, Served, chunk_loop, subscript, number_or_zero, close_chunks,
  static_file_handler_big,
}
use nimlib.Http.Router.Static.Transfer.{
  joined, joined_lem, ending, chunk_frame, frames, chunk_count, Round, chunk_loop-Round,
}

-- Repeated calls with a new response each, as long as the handler asks to be called back: the bodies
-- one after the other, the last state, and the router. `none` where no call has ended the transfer.
abbrev pub Delivered : Type 0
Delivered = Option (Text × Option HandlerState × Router RouteHandler)

abbrev pub prefix_body : Text → Delivered → Delivered
prefix_body body none = none
prefix_body body (some (rest, state, r)) = some (body ++ rest, state, r)

abbrev pub go_on : (Router RouteHandler → Delivered) → Served → Delivered
go_on again none = none
go_on again (some (some recall, response, r)) = prefix_body response.body (again r)
go_on again (some (state, response, r)) = some (response.body, state, r)

module _ (fs : FileSystem) (request : Request) (response : Response) where
  pub deliver : ℕ → Router RouteHandler → Delivered
  deliver zero r = none
  deliver (suc calls) r = go_on (deliver calls) (static_file_handler_big fs request response r)

  -- The response and the router when the loop has ended.
  abbrev prepared_response : Router RouteHandler → Response
  prepared_response r = record response {
    status = 200;
    reason = codes "OK";
    headers =
        push_value (codes "transfer-encoding")
          (push_value (codes "content-type") response.headers
            (subscript request.target r.target_to_mime_type).0)
          (codes "chunked");
  }

  abbrev prepared_router : Router RouteHandler → Router RouteHandler
  prepared_router r = record r {
    target_to_file = (subscript request.target r.target_to_file).1;
    target_to_mime_type = (subscript request.target r.target_to_mime_type).1;
  }

  module _ (file source : Text) (sized : fs.file_size file ≡ some (length source))
      (opened : fs.contents file ≡ some source) where
    -- The request's target is served from the file, from chunk `n` on.
    pub record IsAt (n : ℕ) (r : Router RouteHandler) : Type 0 where
      pub target : find Text-discrete request.target r.target_to_file ≡ some file
      pub chunk : number_or_zero (find Text-discrete file r.last_served_chunk) ≡ n
      pub within : n ≤ chunk_count source

    abbrev pub IsDelivered : ℕ → Delivered → Type 0
    IsDelivered n out =
        (r' : Router RouteHandler) × (out
          ≡ some (frames source n (chunk_count source - n) ++ ending, some finished_no_wait, r'))
        × (find Text-discrete file r'.last_served_chunk ≡ none)

    -- A call at chunk `n` is one round of the loop.
    handler_at :
        (n : ℕ) (r : Router RouteHandler)
        → IsAt n r
        → (resp : Response) × (r' : Router RouteHandler) × (static_file_handler_big fs request
              response r
            ≡ close_chunks fs file
                (length source)
                resp
                r'
                (chunk_loop 2 source (length source) n []))
          × (find Text-discrete request.target r'.target_to_file ≡ some file)
    unfolding static_file_handler_big subscript
    handler_at n r a = (
      prepared_response r,
      prepared_router r,
      rw (a.target, sized, opened, a.chunk, static_file_handler_big),
      rw (a.target, subscript) a.target,
    )

    frames_add :
        (n a b : ℕ) → frames source n a ++ frames source (n + a) b ≡ frames source n (a + b)
    frames_add n zero b =
        let e : n + 0 ≡ n = omega arith in let q : 0 + b ≡ b = omega arith in rw (e, q)
    frames_add n (suc a) b =
        let e : n + suc a ≡ n + 1 + a = omega arith in
        let q : suc a + b ≡ suc (a + b) = omega arith in
        rw (e, q)
          (append_assoc (chunk_frame source n) (frames source (n + 1) a)
              (frames source (n + 1 + a) b)
            ∙ ap (λ t. chunk_frame source n ++ t) (frames_add (n + 1) a b))

    frames_split :
        (n m c : ℕ)
        → n ≤ m
        → m ≤ c
        → frames source n (m - n) ++ frames source m (c - m) ≡ frames source n (c - n)
    frames_split n m c h k =
        let e : m ≡ n + (m - n) = omega arith in
        let q : m - n + (c - m) ≡ c - n = omega arith in
        ap (λ j. frames source n (m - n) ++ frames source j (c - m)) e
        ∙ frames_add n (m - n) (c - m)
        ∙ ap (frames source n) q

    -- What remains after a round, by whether it has reached the last chunk.
    close_last :
        (n : ℕ) (resp : Response) (r : Router RouteHandler) (out : Text × ℕ)
        (again : Router RouteHandler → Delivered)
        → Round source n [] out
        → out.1 ≡ chunk_count source
        → IsDelivered n (go_on again (close_chunks fs file (length source) resp r out))
    unfolding close_chunks
    close_last n resp r (body, m) again w e =
        let emptied : Router RouteHandler = record r {
          last_served_chunk = erase Text-discrete file r.last_served_chunk;
        } in
        (
          emptied,
          (let t : (m == chunk_count source) ≡ true = (==_iff m (chunk_count source)).1 e in
              rw t (
                ap (λ b. some (b ++ ending, some finished_no_wait, emptied))
                  (w.written ∙ ap (λ k. frames source n (k - n)) e))),
          find-erase_self Text-discrete file r.last_served_chunk,
        )

    close_more :
        (n : ℕ) (resp : Response) (r : Router RouteHandler) (out : Text × ℕ)
        (again : Router RouteHandler → Delivered)
        → Round source n [] out
        → out.1 < chunk_count source
        → find Text-discrete request.target r.target_to_file ≡ some file
        → ((r' : Router RouteHandler) → IsAt out.1 r' → IsDelivered out.1 (again r'))
        → IsDelivered n (go_on again (close_chunks fs file (length source) resp r out))
    unfolding close_chunks
    close_more n resp r (body, m) again w lt target ih =
        let f : (m == chunk_count source) ≡ false = ground arith in
        let kept : Router RouteHandler = record r {
          last_served_chunk = insert Text-discrete file m r.last_served_chunk;
        } in
        let (r', e, gone) = ih kept (record {
          target = target;
          chunk = ap number_or_zero (find-insert_self Text-discrete file m r.last_served_chunk);
          within = w.within;
        }) in
        (
          r',
          rw f (
              ap (prefix_body body) e
              ∙ ap (λ b. some (b, some finished_no_wait, r'))
                  (ap (λ b. b ++ (frames source m (chunk_count source - m) ++ ending)) w.written
                    ∙ sym (
                        append_assoc (frames source n (m - n))
                          (frames source m (chunk_count source - m)) ending)
                    ∙ ap (λ b. b ++ ending)
                        (frames_split n m (chunk_count source) w.above w.within))),
          gone,
        )

    deliver_at :
        (calls n : ℕ) (r : Router RouteHandler)
        → IsAt n r
        → chunk_count source < n + calls
        → IsDelivered n (deliver calls r)
    unfolding deliver
    deliver_at zero n r a h = absurd (omega (arith, a.within))
    deliver_at (suc calls) n r a h =
        let (resp, r', e, target) = handler_at n r a in
        let w = chunk_loop-Round source 0 n [] a.within in
        let out : Text × ℕ = chunk_loop 2 source (length source) n [] in
        rw e (elim (dec_lt out.1 (chunk_count source)) [
          | yes lt ↦
              close_more n resp r' out (deliver calls) w lt target
                (λ r'' b. deliver_at calls out.1 r'' b (omega (arith, w.further, w.above)))
          | no ge ↦ close_last n resp r' out (deliver calls) w (omega (arith, w.within))
        ])

    -- A big file that can be read, with no chunk served yet, is sent by as many calls as it has chunks
    -- of 1024 * 300 bytes and one more, or fewer: the bodies are, in order, each chunk between its
    -- length in hexadecimal digits with a line end and a line end, and then the chunk of length zero;
    -- the state is then FINISHED_NO_WAIT, the router has forgotten the chunk number, and the chunks one
    -- after the other are the whole file.
    pub deliver_lem :
        (r : Router RouteHandler)
        → find Text-discrete request.target r.target_to_file ≡ some file
        → find Text-discrete file r.last_served_chunk ≡ none
        → ((r' : Router RouteHandler) × (deliver (chunk_count source + 1) r
              ≡ some (frames source 0 (chunk_count source) ++ ending, some finished_no_wait, r'))
            × (find Text-discrete file r'.last_served_chunk ≡ none))
          × (joined source (chunk_count source) ≡ source)
    deliver_lem r target fresh =
        let (r', e, gone) =
          deliver_at (chunk_count source + 1) 0 r
            (record { target = target; chunk = ap number_or_zero fresh; within = omega arith })
            (omega arith) in
        let q : chunk_count source - 0 ≡ chunk_count source = omega arith in
        (
          (r', e ∙ ap (λ k. some (frames source 0 k ++ ending, some finished_no_wait, r')) q, gone),
          joined_lem source (chunk_count source)
              ∙ take-length (chunk_count source * (1024 * 300)) source (ground arith),
        )
