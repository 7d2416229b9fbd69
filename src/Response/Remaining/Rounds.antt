-- ===== src/Response/Remaining/Rounds.antt =====
-- The rounds of `send_remaining_response` outside the body, and what it is to come to.
use c_icap_server.Common.{
  ℕ, suc, ◌+◌, ◌≤◌, ◌≡◌, ◌⊎◌, inl, inr, refl, sym, ap, ◌∙◌, subst, Bool, true, false, ◌&&◌, List,
  [], ◌∷◌, ◌++◌, map, All, length, if◌then◌else◌, Bytes, Bool-cases, arith,
}
use c_icap_server.Response.{
  Sender, SendStatus, send_nothing, send_resphead, send_head1, send_head2, send_head3, send_body,
  send_eof, send_trailers, sending, ok, eof, max_chunk_size, is_sent, trailers, after_eof,
  update_at, update_send_status,
}
use c_icap_server.Response.Order.{Sent, Reached, updates}
use c_icap_server.Response.Remaining.{
  Result, done, ci_error, assertion, unfinished, ◌>>=◌, Connection, Answer, gives, finished,
  pending_bytes, drain, read_body, go_on, remaining_loop,
}
use c_icap_server.Response.Remaining.Draining.{Takes, Drained, drain-Drained}

-- A response that is sent: its pieces of the body are `all`, if it has a body.
pub record Completed (header : Bytes) (start : Sender) (all : List Bytes) (r : Sender)
    (wire : Bytes) : Type 0 where
  pub given : List Bytes
  pub reached : Reached header start r wire given
  pub idle : r.block ≡ sending []
  pub final : (r.status ≡ send_eof) ⊎ (r.status ≡ send_trailers)
  pub all_given : r.responce_hasbody ≡ true → given ≡ all

abbrev pub Finishes : Bytes → Sender → List Bytes → Result (Sender × Bytes) → Type 0
Finishes header start all (done (r, wire)) = Completed header start all r wire
Finishes header start all ci_error = ⊥
Finishes header start all assertion = ⊥
Finishes header start all unfinished = ⊥

-- How many rounds a status takes, the pieces of the body aside.
abbrev pub rounds : SendStatus → ℕ
rounds send_nothing = 8
rounds send_resphead = 7
rounds send_head1 = 6
rounds send_head2 = 5
rounds send_head3 = 4
rounds send_body = 3
rounds send_eof = 2
rounds send_trailers = 1

-- A service that gives these pieces, and then ends.
abbrev pub answers : List Bytes → List Answer
answers ds = map gives ds ++ (finished ∷ [])

abbrev pub IsPiece : Bytes → Type 0
IsPiece d = (1 ≤ length d) × (length d ≤ max_chunk_size)

module _ (header : Bytes) (start : Sender) (init : Sent header start [] []) (conn : Connection)
    (fair : Takes conn) where
  -- A round after the block is sent.
  unfoldable pub after_round :
      ℕ → ℕ → Sender → SendStatus → Bool → List Answer → Bytes → Result (Sender × Bytes)
  after_round fuel t r st sent xs wire = read_body r st sent xs >>= λ (r₂, more, xs₂). elim more [
    | false ↦ done (r₂, wire)
    | true ↦
        go_on (update_send_status header r₂) wire
          (λ r₃. remaining_loop fuel header conn t r₃ wire xs₂)
  ]

  pub round-after_round :
      (fuel t : ℕ) (r : Sender) (s wire : Bytes) (ds : List Bytes) (xs : List Answer)
      → (e : r.block ≡ sending s)
      → (d : Drained header start r (wire ++ s) ds (drain (length s) conn t r wire (sending s)))
      → remaining_loop (suc fuel) header conn t r wire xs
        ≡ after_round fuel d.time d.after d.after.status true xs (wire ++ s)
  unfolding remaining_loop after_round
  round-after_round fuel t r s wire ds xs e d =
      ap
        (λ b. drain (pending_bytes b) conn t r wire b >>= λ (r₁, t₁, wire₁).
          after_round fuel t₁ r₁ r₁.status (is_sent r₁.block) xs wire₁)
        e
      ∙ ap
          (λ c.
            c >>= λ (r₁, t₁, wire₁). after_round fuel t₁ r₁ r₁.status (is_sent r₁.block) xs wire₁)
          d.comes
      ∙ ap (λ b. after_round fuel d.time d.after d.after.status b xs (wire ++ s))
          (ap is_sent d.idle)

  -- The states from which the loop is shown to finish.
  unfoldable pub Goes : ℕ → Type 0
  Goes fuel =
      (t : ℕ) (r : Sender) (s wire : Bytes) (ds ps : List Bytes)
      → rounds r.status + length ps ≤ fuel
      → 3 ≤ rounds r.status
      → r.block ≡ sending s
      → length r.wbuf ≡ 4096
      → All IsPiece ps
      → Reached header start r wire ds
      → Finishes header start (ds ++ ps) (remaining_loop fuel header conn t r wire (answers ps))

  -- The trailers are sent.
  pub trailers-Finishes :
      (fuel t : ℕ) (r : Sender) (s wire : Bytes) (ds : List Bytes) (xs : List Answer)
      → r.status ≡ send_trailers
      → r.block ≡ sending s
      → Reached header start r wire ds
      → Finishes header start ds (remaining_loop (suc fuel) header conn t r wire xs)
  unfolding after_round read_body go_on
  trailers-Finishes fuel t r s wire ds xs st e before =
      let d =
        drain-Drained header start conn fair (length s) s t r wire ds (omega arith) e before in
      let r₁ = d.after in
      let st₁ = d.same_status ∙ st in
      let stays : update_send_status header r₁ ≡ (r₁, eof) =
        unfold update_send_status in
        ap (update_at header r₁) st₁ ∙ ap (λ b. (r₁, if is_sent b then eof else ok)) d.idle in
      subst (Finishes header start ds)
        (sym (
          round-after_round fuel t r s wire ds xs e d
          ∙ ap (λ x. after_round fuel d.time r₁ x true xs (wire ++ s)) st₁
          ∙ ap
              (λ u.
                go_on u (wire ++ s)
                  (λ r₃. remaining_loop fuel header conn d.time r₃ (wire ++ s) xs))
              stays))
        (record {
          given = ds;
          reached = d.reached;
          idle = d.idle;
          final = inr st₁;
          all_given = λ _. refl;
        })

  -- A round at a status outside the body: what `update_send_status` comes to.
  pub quiet-Finishes :
      (fuel t : ℕ) (r : Sender) (s wire : Bytes) (ds all : List Bytes) (xs : List Answer)
      (st : SendStatus)
      → (e : r.block ≡ sending s)
      → (d : Drained header start r (wire ++ s) ds (drain (length s) conn t r wire (sending s)))
      → d.after.status ≡ st
      → ((sent : Bool) → read_body d.after st sent xs ≡ done (d.after, true, xs))
      → Finishes header start all (
          go_on
            (update_at header d.after st)
            (wire ++ s)
            (λ r₃. remaining_loop fuel header conn d.time r₃ (wire ++ s) xs))
      → Finishes header start all (remaining_loop (suc fuel) header conn t r wire xs)
  unfolding after_round update_send_status
  quiet-Finishes fuel t r s wire ds all xs st e d st₁ quiet fin =
      let loop = λ (r₃ : Sender). remaining_loop fuel header conn d.time r₃ (wire ++ s) xs in
      subst (Finishes header start all)
        (sym (
          round-after_round fuel t r s wire ds xs e d
          ∙ ap (λ x. after_round fuel d.time d.after x true xs (wire ++ s)) st₁
          ∙ ap
              (λ c. c >>= λ (r₂, more, xs₂). elim more [
                | false ↦ done (r₂, wire ++ s)
                | true ↦
                    go_on (update_send_status header r₂) (wire ++ s)
                      (λ r₃. remaining_loop fuel header conn d.time r₃ (wire ++ s) xs₂)
              ])
              (quiet true)
          ∙ ap (λ x. go_on (update_at header d.after x) (wire ++ s) loop) st₁))
        fin

  -- The last block is sent, and then the trailers if they were promised.
  pub eof-Finishes :
      (fuel t : ℕ) (r : Sender) (s wire : Bytes) (ds : List Bytes) (xs : List Answer)
      → r.status ≡ send_eof
      → r.block ≡ sending s
      → Reached header start r wire ds
      → Finishes header start ds (remaining_loop (suc (suc fuel)) header conn t r wire xs)
  unfolding go_on update_at after_eof read_body update_send_status
  eof-Finishes fuel t r s wire ds xs st e before =
      let d =
        drain-Drained header start conn fair (length s) s t r wire ds (omega arith) e before in
      let r₁ = d.after in
      let st₁ = d.same_status ∙ st in
      let loop = λ (r₃ : Sender). remaining_loop (suc fuel) header conn d.time r₃ (wire ++ s) xs in
      let upd = updates d.reached d.idle in
      quiet-Finishes (suc fuel) t r s wire ds ds xs send_eof e d st₁ (λ _. refl)
        (subst
          (λ b. Finishes header start ds (
            go_on (after_eof r₁ (is_sent b) (r₁.allow_trailers && r₁.has_trailer_names)) (wire ++ s)
              loop))
          (sym d.idle)
          (elim (Bool-cases (r₁.allow_trailers && r₁.has_trailer_names)) [
            | inl p ↦
                let r₃ = record r₁ { block = sending (trailers r₁); status = send_trailers } in
                let promised = r₁.allow_trailers && r₁.has_trailer_names in
                let same : (update_send_status header r₁).0 ≡ r₃ =
                  ap (λ x. (update_at header r₁ x).0) st₁
                  ∙ ap (λ b. (after_eof r₁ (is_sent b) promised).0) d.idle
                  ∙ ap (λ q. (after_eof r₁ true q).0) p in
                subst (λ q. Finishes header start ds (go_on (after_eof r₁ true q) (wire ++ s) loop))
                  (sym p)
                  (trailers-Finishes fuel d.time r₃ (trailers r₁) (wire ++ s) ds xs refl refl
                    (subst (λ x. Reached header start x (wire ++ s) ds) same upd))
            | inr p ↦
                subst (λ q. Finishes header start ds (go_on (after_eof r₁ true q) (wire ++ s) loop))
                  (sym p)
                  (record {
                    given = ds;
                    reached = d.reached;
                    idle = d.idle;
                    final = inl st₁;
                    all_given = λ _. refl;
                  })
          ]))
