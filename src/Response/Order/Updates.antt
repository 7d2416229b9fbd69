-- ===== src/Response/Order/Updates.antt =====
-- `update_send_status` keeps a response in order.
use c_icap_server.Common.{
  ◌≡◌, refl, sym, ap, ◌∙◌, subst, Bool, true, false, ◌&&◌, List, [], ◌++◌, append-nil, Bytes, arith,
}
use c_icap_server.Response.{
  Sender, SendStatus, send_nothing, send_resphead, send_head1, send_head2, send_head3, send_body,
  send_eof, send_trailers, sending, mk_responce_header, next_head, is_sent, trailers, after_eof,
  update_at, last_text,
}
use c_icap_server.Response.Order.{pending, message, Phase, Sent}
use c_icap_server.Response.Order.Heads.{next_head-Sent}

-- Once a block is sent, what was sent is all.
pub all_sent : (wire : Bytes) (r : Sender) → r.block ≡ sending [] → wire ++ pending r.block ≡ wire
all_sent wire r idle = ap (λ b. wire ++ pending b) idle ∙ append-nil wire

unchanged-Sent :
    (header wire : Bytes) (r : Sender) (st : SendStatus) (ds : List Bytes)
    → r.status ≡ st
    → r.block ≡ sending []
    → Phase header st r wire ds
    → Sent header r wire ds
unchanged-Sent header wire r st ds e idle phase =
    subst (λ s. Phase header s r (wire ++ pending r.block) ds) (sym e)
      (subst (λ total. Phase header st r total ds) (sym (all_sent wire r idle)) phase)

after_eof-Sent :
    (header wire : Bytes) (r : Sender) (sent promised : Bool) (ds : List Bytes)
    → r.status ≡ send_eof
    → r.block ≡ sending []
    → wire ≡ message header r ds
    → Sent header (after_eof r sent promised).0 wire ds
unfolding after_eof last_text
after_eof-Sent header wire r true true ds e idle phase = ap (λ xs. xs ++ trailers r) phase
after_eof-Sent header wire r true false ds e idle phase =
    unchanged-Sent header wire r send_eof ds e idle phase
after_eof-Sent header wire r false promised ds e idle phase =
    unchanged-Sent header wire r send_eof ds e idle phase

pub update_at-Sent :
    (header wire : Bytes) (r : Sender) (st : SendStatus) (ds : List Bytes)
    → r.status ≡ st
    → r.block ≡ sending []
    → Phase header st r wire ds
    → Sent header (update_at header r st).0 wire ds
unfolding update_at mk_responce_header after_eof last_text
update_at-Sent header wire r send_nothing ds e idle (none_, empty, few) =
    (ap (λ xs. xs ++ header) none_ ∙ sym (append-nil header), empty, few, omega arith)
update_at-Sent header wire r send_resphead ds e idle (sent, empty, few, there) =
    subst (Sent header (next_head r send_head1 0).0 wire) (sym empty) (
      next_head-Sent header wire r send_head1 0 (omega arith) there few sent idle
        (λ t total more. (total, refl, few, more)))
update_at-Sent header wire r send_head1 ds e idle (sent, empty, few, there) =
    subst (Sent header (next_head r send_head2 1).0 wire) (sym empty) (
      next_head-Sent header wire r send_head2 1 (omega arith) there few sent idle
        (λ t total more. (total, refl, few, more)))
update_at-Sent header wire r send_head2 ds e idle (sent, empty, few, there) =
    subst (Sent header (next_head r send_head3 2).0 wire) (sym empty) (
      next_head-Sent header wire r send_head3 2 (omega arith) there few sent idle
        (λ t total more. omega arith))
update_at-Sent header wire r send_head3 ds e idle impossible = absurd impossible
update_at-Sent header wire r send_body ds e idle phase =
    unchanged-Sent header wire r send_body ds e idle phase
update_at-Sent header wire r send_eof ds e idle phase =
    after_eof-Sent header wire r (is_sent r.block) (r.allow_trailers && r.has_trailer_names) ds e
      idle phase
update_at-Sent header wire r send_trailers ds e idle phase =
    unchanged-Sent header wire r send_trailers ds e idle phase
