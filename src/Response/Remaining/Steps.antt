-- ===== src/Response/Remaining/Steps.antt =====
-- The steps of `send_remaining_response` from header to header, and in the body.
use c_icap_server.Common.{
  ℕ, zero, suc, ◌+◌, ◌≤◌, ◌≡◌, inl, inr, refl, sym, ap, ◌∙◌, subst, true, false, ◌&&◌, Option, none,
  some, List, [], ◌∷◌, ◌++◌, append_assoc, append-nil, All, length, get_elem?, memcpy,
  slice-memcpy_self, length-memcpy, Bytes, Bool-cases, Option-cases, arith,
}
use c_icap_server.Response.{
  Sender, SendStatus, send_body, send_eof, sending, body_end, Progress, ok, eof, extra_chunk_size,
  header_text, after_heads, next_head, is_sent, after_eof, update_at, update_send_status, last_text,
  format_block, format_body_chunk,
}
use c_icap_server.Response.Chunk.{HasData, format_body_chunk-chunk_text}
use c_icap_server.Response.Order.{pending, Phase, Sent, Reached, updates, reads, ends}
use c_icap_server.Response.Order.Reachable.{Reached-Sent}
use c_icap_server.Response.Remaining.{
  Result, done, ci_error, assertion, unfinished, ◌>>=◌, Connection, Answer, made_chunk, take_answer,
  read_body, go_on, remaining_loop,
}
use c_icap_server.Response.Remaining.Draining.{Takes}
use c_icap_server.Response.Remaining.Rounds.{
  Finishes, rounds, answers, IsPiece, after_round, Goes, eof-Finishes,
}

abbrev head_step : Sender → SendStatus → Option Bytes → Sender × Progress
head_step r st o = elim o [
  | some x ↦ (record r { block = sending x; status = st }, ok)
  | none ↦ after_heads r r.responce_hasbody
]

-- The last chunk is not empty.
last_text-not_sent : (r : Sender) → is_sent (sending (last_text r)) ≡ false
unfolding last_text
last_text-not_sent r = elim (Option-cases r.i206_use_original_body) [
  | inl e ↦ rw e refl
  | inr (n, e) ↦ elim (Bool-cases r.is_206) [ inl b ↦ rw (e, b) refl | inr b ↦ rw (e, b) refl ]
]

module _ (header : Bytes) (start : Sender) (init : Sent header start [] []) (conn : Connection)
    (fair : Takes conn) where
  -- The step to the next header, or to what follows the headers.
  pub next_head-Finishes :
      (fuel : ℕ) (r : Sender) (st st' : SendStatus) (i t : ℕ) (wire : Bytes) (ds ps : List Bytes)
      → Goes header start init conn fair fuel
      → r.block ≡ sending []
      → (update_send_status header r).0 ≡ (next_head r st' i).0
      → rounds st' + length ps ≤ fuel
      → 4 ≤ rounds st'
      → length r.wbuf ≡ 4096
      → All IsPiece ps
      → Reached header start r wire ds
      → Finishes header start (ds ++ ps) (
          go_on
            (next_head r st' i)
            wire
            (λ r₃. remaining_loop fuel header conn t r₃ wire (answers ps)))
  unfolding next_head after_heads go_on Goes
  next_head-Finishes fuel r st st' i t wire ds ps goes idle same enough early cells pieces before =
      let upd = subst (λ x. Reached header start x wire ds) same (updates before idle) in
      let loop = λ (r₃ : Sender). remaining_loop fuel header conn t r₃ wire (answers ps) in
      let head = head_step r st' in
      elim (Option-cases (header_text (get_elem? r.entities i))) [
        | inr (x, e) ↦
            subst (λ o. Finishes header start (ds ++ ps) (go_on (head o) wire loop)) (sym e)
              (goes t (record r { block = sending x; status = st' }) x wire ds ps enough
                (omega arith) refl cells pieces
                (subst (λ y. Reached header start y wire ds) (ap (λ o. (head o).0) e) upd))
        | inl e ↦
            let reached_ =
              subst (λ y. Reached header start y wire ds) (ap (λ o. (head o).0) e) upd in
            subst (λ o. Finishes header start (ds ++ ps) (go_on (head o) wire loop)) (sym e)
              (elim (Bool-cases r.responce_hasbody) [
                | inl b ↦
                    subst
                      (λ q. Finishes header start (ds ++ ps) (go_on (after_heads r q) wire loop))
                      (sym b)
                      (goes t (record r { status = send_body }) [] wire ds ps (omega arith)
                        (omega arith) idle cells pieces
                        (subst (λ y. Reached header start y wire ds)
                          (ap (λ q. (after_heads r q).0) b) reached_))
                | inr b ↦
                    subst
                      (λ q. Finishes header start (ds ++ ps) (go_on (after_heads r q) wire loop))
                      (sym b)
                      (record {
                        given = ds;
                        reached =
                            subst (λ y. Reached header start y wire ds)
                              (ap (λ q. (after_heads r q).0) b) reached_;
                        idle = refl;
                        final = inl refl;
                        all_given = λ c. absurd (cc (b, c));
                      })
              ])
      ]

  -- What the loop does with an answer.
  answered : ℕ → ℕ → Bytes → List Answer → Result Sender → Result (Sender × Bytes)
  answered fuel t wire xs c = c >>= λ r₂.
      go_on (update_send_status header r₂) wire (λ r₃. remaining_loop fuel header conn t r₃ wire xs)

  has_body :
      (r : Sender) (wire : Bytes) (ds : List Bytes)
      → r.status ≡ send_body
      → r.block ≡ sending []
      → Reached header start r wire ds
      → r.responce_hasbody ≡ true
  has_body r wire ds st idle before =
      (subst (λ x. Phase header x r (wire ++ pending r.block) ds) st
        (Reached-Sent header start init r wire ds before)).1

  finished-Finishes :
      (fuel t : ℕ) (r : Sender) (wire : Bytes) (ds : List Bytes)
      → r.status ≡ send_body
      → r.block ≡ sending []
      → Reached header start r wire ds
      → Finishes header start ds (
          answered
            (suc (suc fuel))
            t
            wire
            []
            (made_chunk (format_body_chunk (record r { block = body_end }))))
  unfolding answered made_chunk format_body_chunk format_block go_on update_send_status update_at
      after_eof
  finished-Finishes fuel t r wire ds st idle before =
      let r₁ = record r { block = body_end } in
      let body = has_body r wire ds st idle before in
      let r₂ = record r₁ {
        wbuf = memcpy r.wbuf 0 (last_text r₁ ++ (0 ∷ []));
        block = sending (last_text r₁);
      } in
      let r₃ = record r₂ { status = send_eof } in
      let made : format_body_chunk r₁ ≡ some (r₂, eof) =
        ap (λ b. format_block r₁ b body_end) body in
      let promised = r.allow_trailers && r.has_trailer_names in
      subst (λ o. Finishes header start ds (answered (suc (suc fuel)) t wire [] (made_chunk o)))
        (sym made)
        (subst
          (λ b. Finishes header start ds (
            go_on (after_eof r₃ b promised) wire
              (λ x. remaining_loop (suc (suc fuel)) header conn t x wire [])))
          (sym (last_text-not_sent r₁))
          (eof-Finishes header start init conn fair fuel t r₃ (last_text r₁) wire ds [] refl refl
            (ends before st idle made)))

  gives-Finishes :
      (fuel t c : ℕ) (d : Bytes) (r : Sender) (wire : Bytes) (ds ps : List Bytes)
      → Goes header start init conn fair fuel
      → r.status ≡ send_body
      → r.block ≡ sending []
      → 3 + length ps ≤ fuel
      → length r.wbuf ≡ 4096
      → IsPiece (c ∷ d)
      → All IsPiece ps
      → Reached header start r wire ds
      → Finishes header start (ds ++ ((c ∷ d) ∷ ps)) (
          answered fuel t wire (answers ps) (
            made_chunk (
              format_body_chunk (record r {
                wbuf = memcpy r.wbuf extra_chunk_size (c ∷ d);
                block = sending (c ∷ d);
              }))))
  unfolding answered made_chunk go_on update_send_status update_at Goes
  gives-Finishes fuel t c d r wire ds ps goes st idle enough cells (pos, fits) pieces before =
      let cells₁ = memcpy r.wbuf extra_chunk_size (c ∷ d) in
      let r₁ = record r { wbuf = cells₁; block = sending (c ∷ d) } in
      let body = has_body r wire ds st idle before in
      let there : HasData r₁ (c ∷ d) = (
        length-memcpy r.wbuf extra_chunk_size (c ∷ d) (omega arith) ∙ cells,
        refl,
        slice-memcpy_self r.wbuf extra_chunk_size (c ∷ d) (length (c ∷ d)) (omega arith) refl,
      ) in
      let (r₂, made, block, st₂, cells₂, _) =
        format_body_chunk-chunk_text r₁ (c ∷ d) there body pos fits in
      let three : rounds r₂.status ≡ 3 = ap rounds (st₂ ∙ st) in
      let after : (update_send_status header r₂) ≡ (r₂, ok) = ap (update_at header r₂) (st₂ ∙ st) in
      subst
        (λ o.
          Finishes header start (ds ++ ((c ∷ d) ∷ ps))
            (answered fuel t wire (answers ps) (made_chunk o)))
        (sym made)
        (subst
          (λ u.
            Finishes header start (ds ++ ((c ∷ d) ∷ ps))
              (go_on u wire (λ r₃. remaining_loop fuel header conn t r₃ wire (answers ps))))
          (sym after)
          (subst
            (λ all.
              Finishes header start all (remaining_loop fuel header conn t r₂ wire (answers ps)))
            (append_assoc ds ((c ∷ d) ∷ []) ps)
            (goes t r₂ _ wire (ds ++ ((c ∷ d) ∷ [])) ps (omega (arith, three))
              (omega (arith, three)) block cells₂ pieces
              (reads cells₁ (c ∷ d) before st idle there pos fits made))))

  -- The steps after an answer, one by one or at once.
  answered_lem :
      (fuel t : ℕ) (wire : Bytes) (xs : List Answer) (c : Result Sender)
      → answered fuel t wire xs c ≡ (
          ((c >>= λ r₁. done (r₁, true)) >>= λ (r₁, more). done (r₁, more, xs))
          >>= λ (r₂, more, xs₂). elim more [
            | false ↦ done (r₂, wire)
            | true ↦
                go_on
                  (update_send_status header r₂)
                  wire
                  (λ r₃. remaining_loop fuel header conn t r₃ wire xs₂)
          ])
  unfolding answered
  answered_lem fuel t wire xs (done r) = refl
  answered_lem fuel t wire xs ci_error = refl
  answered_lem fuel t wire xs assertion = refl
  answered_lem fuel t wire xs unfinished = refl

  -- A round in the body.
  pub body-Finishes :
      (fuel t : ℕ) (r : Sender) (wire : Bytes) (ds ps : List Bytes)
      → Goes header start init conn fair fuel
      → r.status ≡ send_body
      → r.block ≡ sending []
      → 3 + length ps ≤ suc fuel
      → length r.wbuf ≡ 4096
      → All IsPiece ps
      → Reached header start r wire ds
      → Finishes header start
          (ds ++ ps)
          (after_round header start init conn fair fuel t r send_body true (answers ps) wire)
  unfolding after_round read_body take_answer answered
  body-Finishes zero t r wire ds ps goes st idle enough cells pieces before = absurd (omega arith)
  body-Finishes (suc zero) t r wire ds ps goes st idle enough cells pieces before =
      absurd (omega arith)
  body-Finishes (suc (suc fuel)) t r wire ds [] goes st idle enough cells pieces before =
      subst
        (λ all. Finishes header start all (
          after_round header start init conn fair (suc (suc fuel)) t r send_body true (answers [])
            wire))
        (sym (append-nil ds))
        (subst (Finishes header start ds)
          (answered_lem (suc (suc fuel)) t wire []
            (made_chunk (format_body_chunk (record r { block = body_end }))))
          (finished-Finishes fuel t r wire ds st idle before))
  body-Finishes (suc (suc fuel)) t r wire ds ([] ∷ ps) goes st idle enough cells (piece, pieces)
        before =
      absurd (omega (arith, piece.0))
  body-Finishes (suc (suc fuel)) t r wire ds ((c ∷ d) ∷ ps) goes st idle enough cells
        (piece, pieces) before =
      subst (Finishes header start (ds ++ ((c ∷ d) ∷ ps)))
        (answered_lem (suc (suc fuel)) t wire (answers ps) (
          made_chunk (
            format_body_chunk (record r {
              wbuf = memcpy r.wbuf extra_chunk_size (c ∷ d);
              block = sending (c ∷ d);
            }))))
        (gives-Finishes (suc (suc fuel)) t c d r wire ds ps goes st idle (omega arith) cells piece
          pieces before)
