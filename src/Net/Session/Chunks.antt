-- ===== src/Net/Session/Chunks.antt =====
-- `consume` of include/lx/net/session.hpp does not depend on how the bytes of a client were cut into reads.
pub mod Buffers
pub mod Loop
use lite_exchange.Base.{
  ℕ, zero, suc, ◌+◌, ◌-◌, ◌*◌, ◌≤◌, ◌<◌, ◌≡◌, refl, sym, ◌∙◌, ap, ◌⊎◌, inl, inr, arith, Bool, true,
  false, ltb, ◌==◌, ==→eq, if◌then◌else◌, Bool-cases, [], ◌∷◌, ◌++◌, length, take, drop,
  length-append, length-drop,
}
use mathlib.Core.List.{append_assoc}
use lite_exchange.Proto.Messages.{MsgType, InboundMsg, msg_type_of}
use lite_exchange.Proto.Codec.{
  Bytes, DecodeResult, try_decode, read_le, read_header, read_new_order, read_cancel,
}
use lite_exchange.Net.Session.{
  Session, Consumed, Forward, skip, send, forward, new_order_msg, cancel_msg, consume_loop, consume,
  append,
}
use lite_exchange.Net.Session.Ends.{try_decode-ok, consume_loop-Ends}
use lite_exchange.Net.Session.Chunks.Buffers.{append-fits}
use lite_exchange.Net.Session.Chunks.Loop.{
  stopped, resumed, shifted, loop-fuel, loop-append, loop-count,
}

-- A read after others: the bytes arrive, and `consume` runs.
abbrev pub then_read {ℓ} :
    {Q : Type ℓ} → (InboundMsg → Q → Bool × Q) → Bytes → ℕ × Session × Q → ℕ × Session × Q
then_read push ys p = let (count, s, q) = consume push (append ys p.1) p.2 in (p.0 + count, s, q)

module _ {ℓ} {Q : Type ℓ} (push : InboundMsg → Q → Bool × Q)
    (takes : (m : InboundMsg) (q : Q) → (push m q).0 ≡ true) where
  finish : Session → Consumed Q → ℕ × Session × Q
  finish s r = (r.count, record s { recv_buf = r.rest; closed = r.invalid }, r.sink)

  consume-open :
      (s : Session) (q : Q)
      → s.closed ≡ false
      → consume push s q
        ≡ finish s (consume_loop push (suc (length s.recv_buf)) s.session_id s.recv_buf 0 q)
  unfolding consume finish
  consume-open s q e = rw e refl

  consume-closed : (s : Session) (q : Q) → s.closed ≡ true → consume push s q ≡ (0, s, q)
  unfolding consume
  consume-closed s q e = rw e refl

  -- The second read, of a session that the first one left as `r` says.
  second_read :
      (s : Session) (g : ℕ) (ys : Bytes) (r : Consumed Q)
      → s.closed ≡ false
      → length (r.rest ++ ys) ≤ 4096
      → length (r.rest ++ ys) < g
      → let s1 = record s { recv_buf = r.rest; closed = r.invalid } in
        let (count, s2, q2) = consume push (append ys s1) r.sink in
        finish s (resumed push takes g s.session_id ys r) ≡ (r.count + count, s2, q2)
  unfolding finish resumed stopped shifted
  second_read s g ys r e fits k = reading ∙ ap tail (sym appended)
    where
      tail : ℕ × Session × Q → ℕ × Session × Q
      tail p = (r.count + p.0, p.1, p.2)

      whole : Session
      whole = record s { recv_buf = r.rest ++ ys; closed = r.invalid }

      appended :
          consume push (append ys (record s { recv_buf = r.rest; closed = r.invalid })) r.sink
          ≡ consume push whole r.sink
      appended =
          ap (λ (t : Session). consume push t r.sink)
            (append-fits ys (record s { recv_buf = r.rest; closed = r.invalid }) fits)

      plain : r.count ≡ r.count + 0
      plain = omega arith

      end : ℕ
      end = suc (length (r.rest ++ ys))

      reading : finish s (resumed push takes g s.session_id ys r) ≡ tail (consume push whole r.sink)
      reading = elim (Bool-cases r.invalid) [
        | inl bad ↦
            ap
              (λ (b : Bool). finish s (
                if b
                then stopped push takes (r.rest ++ ys) true r.count r.sink
                else consume_loop push g s.session_id (r.rest ++ ys) r.count r.sink))
              bad
            ∙ (λ i. (plain i, record s { recv_buf = r.rest ++ ys; closed = sym bad i }, r.sink))
            ∙ ap tail (sym (consume-closed whole r.sink bad))
        | inr good ↦
            ap
              (λ (b : Bool). finish s (
                if b
                then stopped push takes (r.rest ++ ys) true r.count r.sink
                else consume_loop push g s.session_id (r.rest ++ ys) r.count r.sink))
              good
            ∙ ap (finish s) (
                loop-fuel push takes g end s.session_id (r.rest ++ ys) r.count r.sink k
                  (omega arith))
            ∙ ap (λ (n : ℕ). finish s (consume_loop push end s.session_id (r.rest ++ ys) n r.sink))
                plain
            ∙ ap (finish s) (loop-count push takes end s.session_id (r.rest ++ ys) r.count 0 r.sink)
            ∙ ap tail (sym (consume-open whole r.sink good))
      ]

  read_closed :
      (s : Session) (xs ys : Bytes) (q : Q)
      → length s.recv_buf + length xs + length ys ≤ 4096
      → s.closed ≡ true
      → consume push (append (xs ++ ys) s) q ≡ then_read push ys (consume push (append xs s) q)
  read_closed s xs ys q fits shut =
      ap (λ (t : Session). consume push t q) both
      ∙ consume-closed _ q shut
      ∙ sym (ap (λ (p : ℕ × Session × Q). (0 + p.0, p.1, p.2)) second)
      ∙ ap (then_read push ys)
          (sym (ap (λ (t : Session). consume push t q) one ∙ consume-closed _ q shut))
    where
      one : append xs s ≡ record s { recv_buf = s.recv_buf ++ xs }
      one = append-fits xs s (omega (arith, length-append s.recv_buf xs))

      both : append (xs ++ ys) s ≡ record s { recv_buf = s.recv_buf ++ (xs ++ ys) }
      both =
          append-fits (xs ++ ys) s
            (omega (arith, length-append s.recv_buf (xs ++ ys), length-append xs ys))

      two :
          append ys (record s { recv_buf = s.recv_buf ++ xs })
          ≡ record s { recv_buf = s.recv_buf ++ (xs ++ ys) }
      two =
          append-fits ys (record s { recv_buf = s.recv_buf ++ xs })
            (omega (arith, length-append s.recv_buf xs, length-append (s.recv_buf ++ xs) ys))
          ∙ ap (λ (zs : Bytes). record s { recv_buf = zs }) (append_assoc s.recv_buf xs ys)

      second :
          consume push (append ys (record s { recv_buf = s.recv_buf ++ xs })) q
          ≡ (0, record s { recv_buf = s.recv_buf ++ (xs ++ ys) }, q)
      second = ap (λ (t : Session). consume push t q) two ∙ consume-closed _ q shut

  read_open :
      (s : Session) (xs ys : Bytes) (q : Q)
      → length s.recv_buf + length xs + length ys ≤ 4096
      → s.closed ≡ false
      → consume push (append (xs ++ ys) s) q ≡ then_read push ys (consume push (append xs s) q)
  unfolding finish
  read_open s xs ys q fits opened =
      ap (λ (t : Session). consume push t q) both
      ∙ consume-open _ q opened
      ∙ ap (finish s) (
          loop-append push takes (suc (length start)) g s.session_id start ys 0 q (omega arith)
            (omega arith))
      ∙ second_read s g ys r opened (omega (arith, size)) (omega (arith, size))
      ∙ ap (then_read push ys)
          (sym (ap (λ (t : Session). consume push t q) one ∙ consume-open _ q opened))
    where
      start : Bytes
      start = s.recv_buf ++ xs

      g : ℕ
      g = suc (length (start ++ ys))

      r : Consumed Q
      r = consume_loop push (suc (length start)) s.session_id start 0 q

      size : length (r.rest ++ ys) ≤ length (start ++ ys) × length (start ++ ys) ≤ 4096
      size =
          let ends =
            consume_loop-Ends push (suc (length start)) s.session_id start 0 q (omega arith) in
          (
            omega (
              arith,
              length-append r.rest ys,
              length-append start ys,
              length-append ends.frames r.rest,
              ap length ends.split,
            ),
            omega (arith, length-append start ys, length-append s.recv_buf xs),
          )

      one : append xs s ≡ record s { recv_buf = start }
      one = append-fits xs s (omega (arith, length-append s.recv_buf xs))

      both : append (xs ++ ys) s ≡ record s { recv_buf = start ++ ys }
      both =
          append-fits (xs ++ ys) s
            (omega (arith, length-append s.recv_buf (xs ++ ys), length-append xs ys))
          ∙ ap (λ (zs : Bytes). record s { recv_buf = zs }) (sym (append_assoc s.recv_buf xs ys))

  -- Reading bytes in two parts is reading them at once: over a sink that takes all messages, and as far as
  -- the bytes fit the buffer, the session and the sink end the same, and as many frames are counted.
  pub consume-append :
      (s : Session) (xs ys : Bytes) (q : Q)
      → length s.recv_buf + length xs + length ys ≤ 4096
      → consume push (append (xs ++ ys) s) q ≡ then_read push ys (consume push (append xs s) q)
  consume-append s xs ys q fits = elim (Bool-cases s.closed) [
    | inl shut ↦ read_closed s xs ys q fits shut
    | inr opened ↦ read_open s xs ys q fits opened
  ]
