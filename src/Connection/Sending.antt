-- ===== src/Connection/Sending.antt =====
-- The loop of `send` in `TcpConnection::write` of src/tcp_connection.cpp.
use nimlib.Prelude.{
  ℕ, zero, suc, ◌+◌, ◌≤◌, ◌<◌, ◌≡◌, refl, sym, ap, ◌∙◌, ◌⊎◌, inl, inr, some, arith, dec_lt, lt→ltb,
  ◌++◌, take, drop, length, length-drop, take-add, take-length,
}
use nimlib.Prelude.Int.{ℤ, pos, negsuc}
use nimlib.Prelude.Text.{Text}
use nimlib.Connection.{Sends, send_loop}

-- POSIX: `send` of `n` bytes fails, or sends at least one of them and at most `n`.
abbrev pub IsSend : ℤ → ℕ → Type 0
IsSend (pos k) n = (0 < k) × (k ≤ n)
IsSend (negsuc k) n = Unit

abbrev pub AreSends : Sends → Type 0
AreSends sends = (i n : ℕ) → 0 < n → IsSend (sends i n) n

step-cases :
    (z : ℤ) (n : ℕ)
    → IsSend z n
    → ((k : ℕ) × (z ≡ pos k) × (0 < k) × (k ≤ n)) ⊎ ((k : ℕ) × (z ≡ negsuc k))
step-cases (pos k) n (h, l) = inl (k, refl, h, l)
step-cases (negsuc k) n h = inr (k, refl)

-- What the socket has taken grows by what a send takes.
taken_more :
    (response wire : Text) (bytes_sent k : ℕ)
    → wire ≡ take bytes_sent response
    → wire ++ take k (drop bytes_sent response) ≡ take (bytes_sent + k) response
taken_more response wire bytes_sent k e =
    ap (λ w. w ++ take k (drop bytes_sent response)) e ∙ sym (take-add bytes_sent k response)

send_loop_ends :
    (fuel : ℕ) (sends : Sends) (i : ℕ) (response : Text) (bytes_sent : ℕ) (wire : Text)
    → ¬ (bytes_sent < length response)
    → send_loop (suc fuel) sends i response bytes_sent wire ≡ some (bytes_sent, wire)
unfolding send_loop
send_loop_ends fuel sends i response bytes_sent wire ge = ground arith

-- Where no send fails, all bytes are sent.
pub send_loop_all :
    (fuel : ℕ) (sends : Sends) (i : ℕ) (response : Text) (bytes_sent : ℕ) (wire : Text)
    → ((j n : ℕ) → 0 < n → (k : ℕ) × (sends j n ≡ pos k) × (0 < k) × (k ≤ n))
    → bytes_sent ≤ length response
    → length response < bytes_sent + fuel
    → wire ≡ take bytes_sent response
    → send_loop fuel sends i response bytes_sent wire ≡ some (length response, response)
unfolding send_loop
send_loop_all zero sends i response bytes_sent wire ok le lt e = absurd (omega arith)
send_loop_all (suc fuel) sends i response bytes_sent wire ok le lt e =
    let left = length-drop bytes_sent response in
    elim (dec_lt bytes_sent (length response)) [
      | no ge ↦
          let same : bytes_sent ≡ length response = omega arith in
          send_loop_ends fuel sends i response bytes_sent wire ge
          ∙ ap (λ w. some (bytes_sent, w)) (e ∙ take-length bytes_sent response (omega arith))
          ∙ ap (λ n. some (n, response)) same
      | yes more ↦
          let (k, f, positive, most) =
            ok i (length (drop bytes_sent response)) (omega (arith, left, more)) in
          rw (lt→ltb bytes_sent (length response) more, send_loop, f)
            (send_loop_all fuel sends (i + 1) response (bytes_sent + k)
              (wire ++ take k (drop bytes_sent response)) ok (omega (arith, left, most, le))
              (omega arith) (taken_more response wire bytes_sent k e))
    ]

-- The loop ends with at most all bytes sent, which are the first of the response: if every send takes
-- a byte or fails, one round more than the bytes left is enough.
pub send_loop_total :
    (fuel : ℕ) (sends : Sends) (i : ℕ) (response : Text) (bytes_sent : ℕ) (wire : Text)
    → AreSends sends
    → bytes_sent ≤ length response
    → length response < bytes_sent + fuel
    → wire ≡ take bytes_sent response
    → (n : ℕ) × (send_loop fuel sends i response bytes_sent wire ≡ some (n, take n response))
      × (bytes_sent ≤ n)
      × (n ≤ length response)
unfolding send_loop
send_loop_total zero sends i response bytes_sent wire ok le lt e = absurd (omega arith)
send_loop_total (suc fuel) sends i response bytes_sent wire ok le lt e =
    let left = length-drop bytes_sent response in
    let given = length (drop bytes_sent response) in
    elim (dec_lt bytes_sent (length response)) [
      | no ge ↦ (
        bytes_sent,
        send_loop_ends fuel sends i response bytes_sent wire ge ∙ ap (λ w. some (bytes_sent, w)) e,
        omega arith,
        le,
      )
      | yes more ↦
          elim (step-cases (sends i given) given (ok i given (omega (arith, left, more)))) [
            | inr (k, f) ↦ (
              bytes_sent,
              rw (lt→ltb bytes_sent (length response) more, send_loop, f)
                  (ap (λ w. some (bytes_sent, w)) e),
              omega arith,
              le,
            )
            | inl (k, f, positive, most) ↦
                let (n, r, low, high) =
                  send_loop_total fuel sends (i + 1) response (bytes_sent + k)
                    (wire ++ take k (drop bytes_sent response)) ok (omega (arith, left, most, le))
                    (omega arith) (taken_more response wire bytes_sent k e) in
                (
                  n,
                  rw (lt→ltb bytes_sent (length response) more, send_loop, f) r,
                  omega arith,
                  high,
                )
          ]
    ]
