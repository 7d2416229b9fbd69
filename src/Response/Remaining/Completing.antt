-- ===== src/Response/Remaining/Completing.antt =====
-- `send_remaining_response` sends all that is left.
use c_icap_server.Common.{
  ℕ, zero, suc, ◌+◌, ◌≤◌, ◌≡◌, ◌⊎◌, inl, inr, refl, sym, ap, ◌∙◌, subst, Bool, true, false, List,
  [], ◌++◌, All, length, if◌then◌else◌, Bytes, Bool-cases, arith,
}
use c_icap_server.Response.{
  Sender, SendStatus, send_nothing, send_resphead, send_head1, send_head2, send_head3, send_body,
  send_eof, send_trailers, sending, is_sent, trailers, update_at, update_send_status,
  mk_responce_header, last_text,
}
use c_icap_server.Response.Order.{pending, message, heads, chunks, Phase, Sent, Reached, updates}
use c_icap_server.Response.Order.Updates.{all_sent}
use c_icap_server.Response.Order.Reachable.{Reached-Sent}
use c_icap_server.Response.Remaining.{
  Result, done, ci_error, assertion, unfinished, Connection, drain, read_body, go_on,
  remaining_loop, all_done, send_remaining_response,
}
use c_icap_server.Response.Remaining.Draining.{Takes, Drained, drain-Drained}
use c_icap_server.Response.Remaining.Rounds.{
  Finishes, rounds, answers, IsPiece, after_round, round-after_round, Goes, quiet-Finishes,
}
use c_icap_server.Response.Remaining.Steps.{next_head-Finishes, body-Finishes}

module _ (header : Bytes) (start : Sender) (init : Sent header start [] []) (conn : Connection)
    (fair : Takes conn) where
  -- A round at any status before the end.
  status-Finishes :
      (fuel t : ℕ) (r : Sender) (s wire : Bytes) (ds ps : List Bytes) (st : SendStatus)
      → Goes header start init conn fair fuel
      → (e : r.block ≡ sending s)
      → (d : Drained header start r (wire ++ s) ds (drain (length s) conn t r wire (sending s)))
      → d.after.status ≡ st
      → rounds st + length ps ≤ suc fuel
      → 3 ≤ rounds st
      → length d.after.wbuf ≡ 4096
      → All IsPiece ps
      → Finishes header start
          (ds ++ ps)
          (remaining_loop (suc fuel) header conn t r wire (answers ps))
  unfolding go_on update_at read_body update_send_status Goes
  status-Finishes fuel t r s wire ds ps send_nothing goes e d st enough early cells pieces =
      quiet-Finishes header start init conn fair fuel t r s wire ds (ds ++ ps) (answers ps)
        send_nothing e d st (λ _. refl)
        (goes d.time
          (record (mk_responce_header d.after) { block = sending header; status = send_resphead })
          header (wire ++ s) ds ps (omega arith) (omega arith) refl cells pieces
          (subst (λ x. Reached header start x (wire ++ s) ds)
            (ap (λ x. (update_at header d.after x).0) st) (updates d.reached d.idle)))
  status-Finishes fuel t r s wire ds ps send_resphead goes e d st enough early cells pieces =
      quiet-Finishes header start init conn fair fuel t r s wire ds (ds ++ ps) (answers ps)
        send_resphead e d st (λ _. refl)
        (next_head-Finishes header start init conn fair fuel d.after send_resphead send_head1 0
          d.time (wire ++ s) ds ps goes d.idle (ap (λ x. (update_at header d.after x).0) st)
          (omega arith) (omega arith) cells pieces d.reached)
  status-Finishes fuel t r s wire ds ps send_head1 goes e d st enough early cells pieces =
      quiet-Finishes header start init conn fair fuel t r s wire ds (ds ++ ps) (answers ps)
        send_head1 e d st (λ _. refl)
        (next_head-Finishes header start init conn fair fuel d.after send_head1 send_head2 1 d.time
          (wire ++ s) ds ps goes d.idle (ap (λ x. (update_at header d.after x).0) st) (omega arith)
          (omega arith) cells pieces d.reached)
  status-Finishes fuel t r s wire ds ps send_head2 goes e d st enough early cells pieces =
      quiet-Finishes header start init conn fair fuel t r s wire ds (ds ++ ps) (answers ps)
        send_head2 e d st (λ _. refl)
        (next_head-Finishes header start init conn fair fuel d.after send_head2 send_head3 2 d.time
          (wire ++ s) ds ps goes d.idle (ap (λ x. (update_at header d.after x).0) st) (omega arith)
          (omega arith) cells pieces d.reached)
  status-Finishes fuel t r s wire ds ps send_head3 goes e d st enough early cells pieces = absurd (
      subst (λ x. Phase header x d.after ((wire ++ s) ++ pending d.after.block) ds) st
        (Reached-Sent header start init d.after (wire ++ s) ds d.reached))
  status-Finishes fuel t r s wire ds ps send_body goes e d st enough early cells pieces =
      subst (Finishes header start (ds ++ ps))
        (sym (
          round-after_round header start init conn fair fuel t r s wire ds (answers ps) e d
          ∙ ap
              (λ x.
                after_round header start init conn fair fuel d.time d.after x true (answers ps)
                  (wire ++ s))
              st))
        (body-Finishes header start init conn fair fuel d.time d.after (wire ++ s) ds ps goes st
          d.idle enough cells pieces d.reached)
  status-Finishes fuel t r s wire ds ps send_eof goes e d st enough early cells pieces =
      absurd (omega arith)
  status-Finishes fuel t r s wire ds ps send_trailers goes e d st enough early cells pieces =
      absurd (omega arith)

  -- The loop finishes, from every state before the end of the body.
  loop-Finishes : (fuel : ℕ) → Goes header start init conn fair fuel
  unfolding Goes
  loop-Finishes zero t r s wire ds ps enough early e cells pieces before = absurd (omega arith)
  loop-Finishes (suc fuel) t r s wire ds ps enough early e cells pieces before =
      let d =
        drain-Drained header start conn fair (length s) s t r wire ds (omega arith) e before in
      let same : rounds d.after.status ≡ rounds r.status = ap rounds d.same_status in
      status-Finishes fuel t r s wire ds ps d.after.status (loop-Finishes fuel) e d refl
        (omega (arith, same)) (omega (arith, same)) (d.same_wbuf ∙ cells) pieces

-- What a response comes to that is sent: all of it, its trailers included if they were promised.
abbrev pub Whole : Bytes → List Bytes → Result (Sender × Bytes) → Type 0
Whole header all (done (r, wire)) =
    (r.block ≡ sending [])
    × (((r.status ≡ send_eof) × (wire ≡ message header r all))
        ⊎ ((r.status ≡ send_trailers) × (wire ≡ message header r all ++ trailers r)))
Whole header all ci_error = ⊥
Whole header all assertion = ⊥
Whole header all unfinished = ⊥

message-all :
    (header : Bytes) (r : Sender) (given all : List Bytes)
    → (r.responce_hasbody ≡ true → given ≡ all)
    → message header r given ≡ message header r all
unfolding last_text
message-all header r given all same = elim (Bool-cases r.responce_hasbody) [
  | inl b ↦ ap (message header r) (same b)
  | inr b ↦
      ap (λ c. header ++ (heads 2 r.entities ++ (if c then chunks given ++ last_text r else []))) b
      ∙ ap (λ c. header ++ (heads 2 r.entities ++ (if c then chunks all ++ last_text r else [])))
          (sym b)
]

whole :
    (header : Bytes) (start : Sender) (all : List Bytes) (o : Result (Sender × Bytes))
    → Sent header start [] []
    → Finishes header start all o
    → Whole header all o
whole header start all (done (r, wire)) init c =
    let sent = Reached-Sent header start init r wire c.given c.reached in
    let total = all_sent wire r c.idle in
    let same = message-all header r c.given all c.all_given in
    (
      c.idle,
      elim c.final [
        | inl e ↦ inl (
          e,
          sym total ∙ subst (λ s. Phase header s r (wire ++ pending r.block) c.given) e sent ∙ same,
        )
        | inr e ↦ inr (
          e,
          sym total
              ∙ subst (λ s. Phase header s r (wire ++ pending r.block) c.given) e sent
              ∙ ap (λ xs. xs ++ trailers r) same,
        )
      ],
    )
whole header start all ci_error init c = c
whole header start all assertion init c = c
whole header start all unfinished init c = c

not_all_done : (st : SendStatus) (sent : Bool) → 3 ≤ rounds st → all_done st sent ≡ false
not_all_done send_nothing sent early = refl
not_all_done send_resphead sent early = refl
not_all_done send_head1 sent early = refl
not_all_done send_head2 sent early = refl
not_all_done send_head3 sent early = refl
not_all_done send_body sent early = refl
not_all_done send_eof sent early = absurd (omega arith)
not_all_done send_trailers sent early = refl

-- `send_remaining_response`, from any point of a response before the end of its body, over a
-- connection that takes at least a byte of what is pending at each write, and with a service that
-- gives pieces of 1 to 4064 bytes and then ends, returns `CI_OK` when it has a round for each
-- piece and at most eight more, and no assertion fails: what was sent by then is the response
-- header, the encapsulated headers and, if there is a body, a chunk for each piece given before or
-- now and the last chunk, and behind them the trailers if the response has come to
-- `SEND_TRAILERS`. The response started with nothing sent and with at most two encapsulated
-- headers, and `wbuf` has 4096 bytes.
pub send_remaining_response-Whole :
    (header : Bytes) (start r : Sender) (conn : Connection) (s wire : Bytes) (ds ps : List Bytes)
    (fuel : ℕ)
    → Sent header start [] []
    → Reached header start r wire ds
    → Takes conn
    → 3 ≤ rounds r.status
    → rounds r.status + length ps ≤ fuel
    → r.block ≡ sending s
    → length r.wbuf ≡ 4096
    → All IsPiece ps
    → Whole header (ds ++ ps) (send_remaining_response fuel header conn r wire (answers ps))
unfolding send_remaining_response Goes
send_remaining_response-Whole header start r conn s wire ds ps fuel init before fair early enough e
      cells pieces =
    subst
      (λ b.
        Whole header (ds ++ ps)
          (if b then done (r, wire) else remaining_loop fuel header conn 0 r wire (answers ps)))
      (sym (not_all_done r.status (is_sent r.block) early))
      (whole header start (ds ++ ps) (remaining_loop fuel header conn 0 r wire (answers ps)) init (
        loop-Finishes header start init conn fair fuel 0 r s wire ds ps enough early e cells pieces
          before))
