-- ===== src/Response/Remaining.antt =====
-- request.c: `send_remaining_response`, which sends what is left of a response once the request is
-- read. The connection and the service are arguments.
pub mod Draining
pub mod Rounds
pub mod Steps
pub mod Completing
use c_icap_server.Common.{
  ℕ, zero, suc, ◌+◌, Bool, true, false, ◌&&◌, Option, none, some, List, [], ◌∷◌, ◌++◌,
  if◌then◌else◌, length, take, Bytes, memcpy,
}
use c_icap_server.Response.{
  Sender, SendStatus, send_nothing, send_resphead, send_head1, send_head2, send_head3, send_body,
  send_eof, send_trailers, Block, sending, body_end, Progress, ok, eof, error, extra_chunk_size,
  is_sent, update_send_status, send_current_block_data, format_body_chunk,
}

-- What a function comes to: a result, `CI_ERROR`, an assertion that fails, or no fuel.
pub data Result {ℓ} (A : Type ℓ) : Type ℓ where
  done : A → Result A
  ci_error : Result A
  assertion : Result A
  unfinished : Result A

infixl 5 ◌>>=◌
abbrev pub ◌>>=◌ {ℓ κ} : {A : Type ℓ} {B : Type κ} → Result A → (A → Result B) → Result B
done a >>= f = f a
ci_error >>= f = ci_error
assertion >>= f = assertion
unfinished >>= f = unfinished

-- How many of the pending bytes the connection takes, at each write; none after a timeout or an
-- error.
abbrev pub Connection : Type 0
Connection = ℕ → ℕ → Option ℕ

-- What the service does when it is asked for data: bytes, `CI_EOF`, or `CI_ERROR`.
pub data Answer : Type 0 where
  gives : Bytes → Answer
  finished : Answer
  fails : Answer

abbrev pub pending_bytes : Block → ℕ
pending_bytes (sending s) = length s
pending_bytes body_end = 0

-- The loop that sends a block, from the write `t` on, with what was sent; the fuel is at least the
-- number of pending bytes.
unfoldable pub drain : ℕ → Connection → ℕ → Sender → Bytes → Block → Result (Sender × ℕ × Bytes)
unfolding send_current_block_data
drain fuel conn t r wire (sending []) = done (r, t, wire)
drain fuel conn t r wire body_end = done (r, t, wire)
drain zero conn t r wire (sending (c ∷ s)) = unfinished
drain (suc fuel) conn t r wire (sending (c ∷ s)) = elim (conn t (length (c ∷ s))) [
  | none ↦ ci_error
  | some k ↦ elim (send_current_block_data k r) [
    | none ↦ assertion
    | some r' ↦ drain fuel conn (suc t) r' (wire ++ take k (c ∷ s)) r'.block
  ]
]

-- The chunk that is made of the block, and the status.
unfoldable pub made_chunk : Option (Sender × Progress) → Result Sender
made_chunk none = assertion
made_chunk (some (r, eof)) = done (record r { status = send_eof })
made_chunk (some (r, ok)) = done r
made_chunk (some (r, error)) = done r

-- An answer of the service: the sender, and whether the loop goes on.
unfoldable pub take_answer : Sender → Answer → Result (Sender × Bool)
unfolding made_chunk format_body_chunk
take_answer r fails = ci_error
take_answer r finished =
    made_chunk (format_body_chunk (record r { block = body_end })) >>= λ r'. done (r', true)
take_answer r (gives []) = done (r, false)
take_answer r (gives (c ∷ d)) =
    made_chunk (
      format_body_chunk
        (record r { wbuf = memcpy r.wbuf extra_chunk_size (c ∷ d); block = sending (c ∷ d) }))
    >>= λ r'. done (r', true)

-- In the body, the service is asked; a service that is asked too often is an error.
unfoldable pub read_body :
    Sender → SendStatus → Bool → List Answer → Result (Sender × Bool × List Answer)
unfolding take_answer
read_body r send_body true [] = ci_error
read_body r send_body true (x ∷ xs) = take_answer r x >>= λ (r', more). done (r', more, xs)
read_body r st sent xs = done (r, true, xs)

-- What follows `update_send_status`.
unfoldable pub go_on :
    Sender × Progress → Bytes → (Sender → Result (Sender × Bytes)) → Result (Sender × Bytes)
go_on (r, ok) wire loop = loop r
go_on (r, eof) wire loop = done (r, wire)
go_on (r, error) wire loop = ci_error

-- The loop of `send_remaining_response`.
unfoldable pub remaining_loop :
    ℕ → Bytes → Connection → ℕ → Sender → Bytes → List Answer → Result (Sender × Bytes)
unfolding drain read_body go_on
remaining_loop zero header conn t r wire xs = unfinished
remaining_loop (suc fuel) header conn t r wire xs =
    drain (pending_bytes r.block) conn t r wire r.block >>= λ (r₁, t₁, wire₁).
    read_body r₁ r₁.status (is_sent r₁.block) xs >>= λ (r₂, more, xs₂). elim more [
      | false ↦ done (r₂, wire₁)
      | true ↦
          go_on (update_send_status header r₂) wire₁
            (λ r₃. remaining_loop fuel header conn t₁ r₃ wire₁ xs₂)
    ]

-- Whether everything is sent already.
abbrev pub all_done : SendStatus → Bool → Bool
all_done send_eof sent = sent
all_done st sent = false

-- `send_remaining_response`: the sender and what was sent, if `wire` was sent before.
unfoldable pub send_remaining_response :
    ℕ → Bytes → Connection → Sender → Bytes → List Answer → Result (Sender × Bytes)
unfolding remaining_loop
send_remaining_response fuel header conn r wire xs =
    if all_done r.status (is_sent r.block)
    then done (r, wire)
    else remaining_loop fuel header conn 0 r wire xs
