-- ===== src/Response/Remaining/Draining.antt =====
-- A block is sent by as many writes as it takes, if the connection takes a byte each time.
use c_icap_server.Common.{
  ℕ, zero, suc, ◌+◌, ◌≤◌, ◌≡◌, refl, sym, ap, ◌∙◌, subst, none, some, List, [], ◌∷◌, ◌++◌,
  append_assoc, append-nil, length, take, drop, length-drop, take-append-drop, if◌then◌else◌, Bytes,
  arith,
}
use c_icap_server.Response.{Sender, sending, send_block, send_current_block_data, in_heads}
use c_icap_server.Response.Order.{Reached, writes}
use c_icap_server.Response.Remaining.{Result, done, ci_error, assertion, Connection, drain}

-- A connection that takes at least a byte of what is pending at each write.
abbrev pub Takes : Connection → Type 0
Takes conn = (t n : ℕ) → 1 ≤ n → (k : ℕ) × (conn t n ≡ some k) × (1 ≤ k) × (k ≤ n)

-- The block of `r` is sent, and nothing else has changed.
pub record Drained (header : Bytes) (start r : Sender) (wire : Bytes) (ds : List Bytes)
    (outcome : Result (Sender × ℕ × Bytes)) : Type 0 where
  pub after : Sender
  pub time : ℕ
  pub comes : outcome ≡ done (after, time, wire)
  pub reached : Reached header start after wire ds
  pub idle : after.block ≡ sending []
  pub same_status : after.status ≡ r.status
  pub same_wbuf : length after.wbuf ≡ length r.wbuf

module _ (header : Bytes) (start : Sender) (conn : Connection) (fair : Takes conn) where
  pub drain-Drained :
      (fuel : ℕ) (s : Bytes) (t : ℕ) (r : Sender) (wire : Bytes) (ds : List Bytes)
      → length s ≤ fuel
      → r.block ≡ sending s
      → Reached header start r wire ds
      → Drained header start r (wire ++ s) ds (drain fuel conn t r wire (sending s))
  unfolding drain send_current_block_data send_block
  drain-Drained fuel [] t r wire ds enough e before = record {
    after = r;
    time = t;
    comes = ap (λ w. done (r, t, w)) (sym (append-nil wire));
    reached = subst (λ w. Reached header start r w ds) (sym (append-nil wire)) before;
    idle = e;
    same_status = refl;
    same_wbuf = refl;
  }
  drain-Drained zero (c ∷ s) t r wire ds enough e before = absurd (omega arith)
  drain-Drained (suc fuel) (c ∷ s) t r wire ds enough e before =
      let (k, taken, pos, le) = fair t (length (c ∷ s)) (omega arith) in
      let r₁ = record r {
        block = sending (drop k (c ∷ s));
        bytes_out = r.bytes_out + k;
        http_bytes_out = if in_heads r.status then r.http_bytes_out + k else r.http_bytes_out;
      } in
      let made : send_current_block_data k r ≡ some r₁ = ap (send_block k r) e in
      let all_ : (wire ++ take k (c ∷ s)) ++ drop k (c ∷ s) ≡ wire ++ (c ∷ s) =
        append_assoc wire (take k (c ∷ s)) (drop k (c ∷ s))
        ∙ ap (λ xs. wire ++ xs) (take-append-drop k (c ∷ s)) in
      let rest =
        drain-Drained fuel (drop k (c ∷ s)) (suc t) r₁ (wire ++ take k (c ∷ s)) ds
          (omega (arith, length-drop k (c ∷ s))) refl (writes k before e made) in
      record {
        after = rest.after;
        time = rest.time;
        comes =
            ap
              (λ o. elim o [
                | none ↦ ci_error
                | some j ↦ elim (send_current_block_data j r) [
                  | none ↦ assertion
                  | some r' ↦ drain fuel conn (suc t) r' (wire ++ take j (c ∷ s)) r'.block
                ]
              ])
              taken
            ∙ ap
                (λ o. elim o [
                  | none ↦ assertion
                  | some r' ↦ drain fuel conn (suc t) r' (wire ++ take k (c ∷ s)) r'.block
                ])
                made
            ∙ rest.comes
            ∙ ap (λ w. done (rest.after, rest.time, w)) all_;
        reached = subst (λ w. Reached header start rest.after w ds) all_ rest.reached;
        idle = rest.idle;
        same_status = rest.same_status;
        same_wbuf = rest.same_wbuf;
      }
