-- ===== src/Net/Session/Chunks/Buffers.antt =====
-- What include/lx/net/session.hpp reads of a buffer stays when more bytes come.
use lite_exchange.Base.{
  ℕ, zero, suc, ◌+◌, ◌-◌, ◌*◌, ◌≤◌, ◌≡◌, refl, ◌∙◌, ap, ◌⊎◌, inl, inr, arith, ltb, ◌==◌, ==→eq,
  Bool-cases, [], ◌∷◌, ◌++◌, length, take, drop, length-append, length-drop,
}
use lite_exchange.Proto.Messages.{MsgType, msg_type_of}
use lite_exchange.Proto.Codec.{
  Bytes, DecodeResult, try_decode, read_le, read_header, read_new_order, read_cancel,
}
use lite_exchange.Net.Session.{Session, send, forward, new_order_msg, cancel_msg, append}

pub drop-append : (n : ℕ) (xs ys : Bytes) → n ≤ length xs → drop n (xs ++ ys) ≡ drop n xs ++ ys
drop-append zero xs ys h = refl
drop-append (suc n) [] ys h = absurd (omega arith)
drop-append (suc n) (x ∷ xs) ys h = drop-append n xs ys (omega arith)

read_le-append : (w : ℕ) (xs ys : Bytes) → w ≤ length xs → read_le w (xs ++ ys) ≡ read_le w xs
unfolding read_le
read_le-append zero xs ys h = refl
read_le-append (suc w) [] ys h = absurd (omega arith)
read_le-append (suc w) (x ∷ xs) ys h =
    ap (λ (v : ℕ). x + 256 * v) (read_le-append w xs ys (omega arith))

-- A field that is all in the bytes at hand.
field-append :
    (w n : ℕ) (xs ys : Bytes)
    → n + w ≤ length xs
    → read_le w (drop n (xs ++ ys)) ≡ read_le w (drop n xs)
field-append w n xs ys h =
    ap (read_le w) (drop-append n xs ys (omega arith))
    ∙ read_le-append w (drop n xs) ys (omega (arith, length-drop n xs))

-- What is decided of a buffer stays when more bytes come.
try_decode-append :
    (xs ys : Bytes)
    → (try_decode xs ≡ DecodeResult.need_more) ⊎ (try_decode (xs ++ ys) ≡ try_decode xs)
unfolding try_decode
try_decode-append xs ys = elim (Bool-cases (ltb (length xs) 8)) [
  | inl short ↦ inl (ground (arith, short))
  | inr long ↦
      let size = read_le-append 2 xs ys (ground (arith, long)) in
      let kind = ap msg_type_of (field-append 1 2 xs ys (ground (arith, long))) in
      rw (size, kind) (ground (arith, long, length-append xs ys))
]

new_order_msg-append :
    (sid : ℕ) (xs ys : Bytes) → 32 ≤ length xs → new_order_msg sid (xs ++ ys) ≡ new_order_msg sid xs
unfolding new_order_msg read_new_order read_header
new_order_msg-append sid xs ys h =
    rw
      (
        read_le-append 2 xs ys (omega arith),
        field-append 1 2 xs ys (omega arith),
        field-append 1 3 xs ys (omega arith),
        field-append 8 8 xs ys (omega arith),
        field-append 8 16 xs ys (omega arith),
        field-append 4 24 xs ys (omega arith),
        field-append 2 28 xs ys (omega arith),
        field-append 1 30 xs ys (omega arith),
        field-append 1 31 xs ys (omega arith),
      )
      refl

cancel_msg-append :
    (sid : ℕ) (xs ys : Bytes) → 16 ≤ length xs → cancel_msg sid (xs ++ ys) ≡ cancel_msg sid xs
unfolding cancel_msg read_cancel read_header
cancel_msg-append sid xs ys h =
    rw
      (
        read_le-append 2 xs ys (omega arith),
        field-append 1 2 xs ys (omega arith),
        field-append 1 3 xs ys (omega arith),
        field-append 8 8 xs ys (omega arith),
      )
      refl

pub decided :
    (xs ys : Bytes)
    → ¬ (try_decode xs ≡ DecodeResult.need_more)
    → try_decode (xs ++ ys) ≡ try_decode xs
decided xs ys n = elim (try_decode-append xs ys) [ inl e ↦ absurd (n e) | inr e ↦ e ]

pub take-enough : (n : ℕ) (xs : Bytes) → length xs ≤ n → take n xs ≡ xs
take-enough zero [] h = refl
take-enough (suc n) [] h = refl
take-enough zero (x ∷ xs) h = absurd (omega arith)
take-enough (suc n) (x ∷ xs) h = ap (λ (zs : Bytes). x ∷ zs) (take-enough n xs (omega arith))

pub append-fits :
    (xs : Bytes) (s : Session)
    → length (s.recv_buf ++ xs) ≤ 4096
    → append xs s ≡ record s { recv_buf = s.recv_buf ++ xs }
unfolding append
append-fits xs s h =
    ap (λ (zs : Bytes). record s { recv_buf = s.recv_buf ++ zs })
      (take-enough (4096 - length s.recv_buf) xs (omega (arith, length-append s.recv_buf xs)))

pub forward-append :
    (sid : ℕ) (type : MsgType) (len : ℕ) (xs ys : Bytes)
    → len ≤ length xs
    → forward sid type len (xs ++ ys) ≡ forward sid type len xs
unfolding forward
forward-append sid MsgType.new_order len xs ys h = elim (Bool-cases (len == 32)) [
  | inl whole ↦
      rw whole (ap send (new_order_msg-append sid xs ys (omega (arith, ==→eq len 32 whole))))
  | inr other ↦ rw other refl
]
forward-append sid MsgType.cancel_order len xs ys h = elim (Bool-cases (len == 16)) [
  | inl whole ↦ rw whole (ap send (cancel_msg-append sid xs ys (omega (arith, ==→eq len 16 whole))))
  | inr other ↦ rw other refl
]
forward-append sid MsgType.logon len xs ys h = refl
forward-append sid MsgType.ack len xs ys h = refl
forward-append sid MsgType.reject len xs ys h = refl
forward-append sid MsgType.fill len xs ys h = refl
forward-append sid (MsgType.raw n) len xs ys h = refl
