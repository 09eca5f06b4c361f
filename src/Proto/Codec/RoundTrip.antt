-- ===== src/Proto/Codec/RoundTrip.antt =====
-- The layout of include/lx/proto/messages.hpp, which codec.hpp frames: what is written is read back.
use lite_exchange.Base.{
  ℕ, zero, suc, ◌-◌, ◌/◌, ◌^◌, ◌<◌, ◌≡◌, refl, ◌∙◌, ap, arith, ℤ, pos, negsuc, Bool, true, false,
  ltb, [], ◌++◌, length,
}
use native.Mathlib.Nat.{pow-suc}
use lite_exchange.Proto.Messages.{
  MsgType, Side, TimeInForce, Header, NewOrder, msg_type_of, msg_type_code,
}
use lite_exchange.Proto.Codec.{
  Bytes, read_le, write_le, signed64, pattern64, side_of, side_code, tif_of, tif_code, known,
  read_header, write_header, read_new_order, write_new_order, size_new_order,
}

-- An integer of `w` bytes comes back, whatever follows it.
read_le-write_le : (w x : ℕ) (rest : Bytes) → x < 256 ^ w → read_le w (write_le w x ++ rest) ≡ x
unfolding read_le write_le
read_le-write_le zero x rest h = omega arith
read_le-write_le (suc w) x rest h =
    omega (arith, read_le-write_le w (x / 256) rest (omega (arith, pow-suc 256 w)), pow-suc 256 w)

-- The range of `int64_t`.
abbrev pub IsInt64 : ℤ → Type 0
IsInt64 (pos n) = n < 2 ^ 63
IsInt64 (negsuc n) = n < 2 ^ 63

signed64-pattern64 : (p : ℤ) → IsInt64 p → signed64 (pattern64 p) ≡ p
unfolding signed64 pattern64
signed64-pattern64 (pos n) h = let low : ltb n (2 ^ 63) ≡ true = ground arith in rw low refl
signed64-pattern64 (negsuc n) h =
    let high : ltb (2 ^ 64 - 1 - n) (2 ^ 63) ≡ false = ground arith in
    rw high (ap negsuc (omega arith))

pattern64-lt : (p : ℤ) → IsInt64 p → pattern64 p < 256 ^ 8
unfolding pattern64
pattern64-lt (pos n) h = omega arith
pattern64-lt (negsuc n) h = omega arith

-- The enumerators that the protocol names.
abbrev pub named_side : Side → Bool
named_side (Side.raw n) = false
named_side _ = true

abbrev pub named_tif : TimeInForce → Bool
named_tif (TimeInForce.raw n) = false
named_tif _ = true

side-back : (s : Side) → named_side s ≡ true → (side_of (side_code s) ≡ s) × (side_code s < 256 ^ 1)
unfolding side_of side_code
side-back Side.buy h = (refl, omega arith)
side-back Side.sell h = (refl, omega arith)
side-back (Side.raw n) h = absurd (ground arith)

tif-back :
    (t : TimeInForce) → named_tif t ≡ true → (tif_of (tif_code t) ≡ t) × (tif_code t < 256 ^ 1)
unfolding tif_of tif_code
tif-back TimeInForce.gtc h = (refl, omega arith)
tif-back TimeInForce.ioc h = (refl, omega arith)
tif-back (TimeInForce.raw n) h = absurd (ground arith)

msg_type-back : (t : MsgType) → known t ≡ true → msg_type_of (msg_type_code t) ≡ t
unfolding msg_type_of msg_type_code
msg_type-back MsgType.logon h = refl
msg_type-back MsgType.new_order h = refl
msg_type-back MsgType.cancel_order h = refl
msg_type-back MsgType.ack h = refl
msg_type-back MsgType.reject h = refl
msg_type-back MsgType.fill h = refl
msg_type-back (MsgType.raw n) h = absurd (ground arith)

msg_type-lt : (t : MsgType) → known t ≡ true → msg_type_code t < 256 ^ 1
unfolding msg_type_code
msg_type-lt MsgType.logon h = omega arith
msg_type-lt MsgType.new_order h = omega arith
msg_type-lt MsgType.cancel_order h = omega arith
msg_type-lt MsgType.ack h = omega arith
msg_type-lt MsgType.reject h = omega arith
msg_type-lt MsgType.fill h = omega arith
msg_type-lt (MsgType.raw n) h = absurd (ground arith)

-- The values that the fields of a header can hold.
pub record IsHeader (h : Header) : Type 0 where
  pub len : h.len < 2 ^ 16
  pub type : known h.type ≡ true
  pub flags : h.flags < 2 ^ 8
  pub session_id : h.session_id < 2 ^ 32

header_of :
    {a c d : ℕ} {t : MsgType} (h : Header)
    → a ≡ h.len
    → t ≡ h.type
    → c ≡ h.flags
    → d ≡ h.session_id
    → record { len = a; type = t; flags = c; session_id = d } ≡ h
header_of h e1 e2 e3 e4 = rw (e1, e2, e3, e4) refl

read_header-write_header :
    (h : Header) (rest : Bytes) → IsHeader h → read_header (write_header h ++ rest) ≡ h
unfolding read_header write_header read_le write_le
read_header-write_header h rest v =
    header_of h (read_le-write_le 2 h.len [] v.len)
      (ap msg_type_of (read_le-write_le 1 (msg_type_code h.type) [] (msg_type-lt h.type v.type))
        ∙ msg_type-back h.type v.type)
      (read_le-write_le 1 h.flags [] v.flags) (read_le-write_le 4 h.session_id [] v.session_id)

-- The values that the fields of a new order can hold.
pub record IsNewOrder (m : NewOrder) : Type 0 where
  pub hdr : IsHeader m.hdr
  pub order_id : m.order_id < 2 ^ 64
  pub price : IsInt64 m.price
  pub qty : m.qty < 2 ^ 32
  pub symbol_id : m.symbol_id < 2 ^ 16
  pub side : named_side m.side ≡ true
  pub tif : named_tif m.tif ≡ true

new_order_of :
    {a q y : ℕ} {h : Header} {p : ℤ} {s : Side} {t : TimeInForce} (m : NewOrder)
    → h ≡ m.hdr
    → a ≡ m.order_id
    → p ≡ m.price
    → q ≡ m.qty
    → y ≡ m.symbol_id
    → s ≡ m.side
    → t ≡ m.tif
    → record { hdr = h; order_id = a; price = p; qty = q; symbol_id = y; side = s; tif = t } ≡ m
new_order_of m e1 e2 e3 e4 e5 e6 e7 = rw (e1, e2, e3, e4, e5, e6, e7) refl

-- A new order comes back from its 32 bytes.
pub read_new_order-write_new_order :
    (m : NewOrder)
    → IsNewOrder m
    → (read_new_order (write_new_order m) ≡ m) × (length (write_new_order m) ≡ size_new_order)
unfolding read_new_order write_new_order write_header read_le write_le
read_new_order-write_new_order m v = (
  new_order_of m (read_header-write_header m.hdr [] v.hdr)
      (read_le-write_le 8 m.order_id [] v.order_id)
      (ap signed64 (read_le-write_le 8 (pattern64 m.price) [] (pattern64-lt m.price v.price))
        ∙ signed64-pattern64 m.price v.price)
      (read_le-write_le 4 m.qty [] v.qty) (read_le-write_le 2 m.symbol_id [] v.symbol_id)
      (ap side_of (read_le-write_le 1 (side_code m.side) [] (side-back m.side v.side).1)
        ∙ (side-back m.side v.side).0)
      (ap tif_of (read_le-write_le 1 (tif_code m.tif) [] (tif-back m.tif v.tif).1)
        ∙ (tif-back m.tif v.tif).0),
  refl,
)
