-- ===== src/Proto/Codec.antt =====
-- include/lx/proto/codec.hpp, and the layout that the `static_assert`s of messages.hpp fix: a frame is
-- a list of bytes, its integers are little-endian (the repository runs on x86-64).
pub mod RoundTrip
pub mod Outbound
use lite_exchange.Base.{
  ℕ, zero, suc, ◌+◌, ◌-◌, ◌*◌, ◌/◌, ◌%◌, ◌^◌, ℤ, pos, negsuc, Bool, ◌||◌, ltb, ◌==◌, if◌then◌else◌,
  List, [], ◌∷◌, ◌++◌, length, get_or, drop,
}
use lite_exchange.Proto.Messages.{
  MsgType, Side, TimeInForce, Header, NewOrder, CancelOrder, msg_type_of, msg_type_code,
}

abbrev pub Bytes : Type 0
Bytes = List ℕ

-- sizeof(Header)
abbrev pub min_frame_len : ℕ
min_frame_len = 8

abbrev pub max_frame_len : ℕ
max_frame_len = 256

abbrev pub size_new_order : ℕ
size_new_order = 32

abbrev pub size_cancel_order : ℕ
size_cancel_order = 16

-- An unsigned integer of `w` bytes at the front.
unfoldable pub read_le : ℕ → Bytes → ℕ
read_le zero bytes = 0
read_le (suc w) bytes = get_or bytes 0 0 + 256 * read_le w (drop 1 bytes)

unfoldable pub write_le : ℕ → ℕ → Bytes
write_le zero x = []
write_le (suc w) x = (x % 256) ∷ write_le w (x / 256)

-- The `int64_t` of a pattern, and its pattern.
unfoldable pub signed64 : ℕ → ℤ
signed64 x = if ltb x (2 ^ 63) then pos x else negsuc (2 ^ 64 - 1 - x)

unfoldable pub pattern64 : ℤ → ℕ
pattern64 (pos n) = n
pattern64 (negsuc n) = 2 ^ 64 - 1 - n

unfoldable pub side_of : ℕ → Side
side_of n = if n == 0 then Side.buy else if n == 1 then Side.sell else Side.raw n

unfoldable pub side_code : Side → ℕ
side_code Side.buy = 0
side_code Side.sell = 1
side_code (Side.raw n) = n

unfoldable pub tif_of : ℕ → TimeInForce
tif_of n = if n == 0 then TimeInForce.gtc else if n == 1 then TimeInForce.ioc else TimeInForce.raw n

unfoldable pub tif_code : TimeInForce → ℕ
tif_code TimeInForce.gtc = 0
tif_code TimeInForce.ioc = 1
tif_code (TimeInForce.raw n) = n

unfoldable pub read_header : Bytes → Header
read_header b = record {
  len = read_le 2 b;
  type = msg_type_of (read_le 1 (drop 2 b));
  flags = read_le 1 (drop 3 b);
  session_id = read_le 4 (drop 4 b);
}

unfoldable pub read_new_order : Bytes → NewOrder
unfolding read_header
read_new_order b = record {
  hdr = read_header b;
  order_id = read_le 8 (drop 8 b);
  price = signed64 (read_le 8 (drop 16 b));
  qty = read_le 4 (drop 24 b);
  symbol_id = read_le 2 (drop 28 b);
  side = side_of (read_le 1 (drop 30 b));
  tif = tif_of (read_le 1 (drop 31 b));
}

unfoldable pub read_cancel : Bytes → CancelOrder
unfolding read_header
read_cancel b = record { hdr = read_header b; order_token = read_le 8 (drop 8 b) }

unfoldable pub write_header : Header → Bytes
write_header h =
    write_le 2 h.len
    ++ (write_le 1 (msg_type_code h.type) ++ (write_le 1 h.flags ++ write_le 4 h.session_id))

unfoldable pub write_new_order : NewOrder → Bytes
unfolding write_header
write_new_order m =
    write_header m.hdr
    ++ (write_le 8 m.order_id
        ++ (write_le 8 (pattern64 m.price)
            ++ (write_le 4 m.qty
                ++ (write_le 2 m.symbol_id
                    ++ (write_le 1 (side_code m.side) ++ write_le 1 (tif_code m.tif))))))

unfoldable pub write_cancel : CancelOrder → Bytes
unfolding write_header
write_cancel m = write_header m.hdr ++ write_le 8 m.order_token

-- `DecodeResult`, with the type and length that `OK` sets.
pub data DecodeResult : Type 0 where
  ok : MsgType → ℕ → DecodeResult
  need_more invalid : DecodeResult

-- The cases of the switch.
abbrev pub known : MsgType → Bool
known (MsgType.raw n) = Bool.false
known _ = Bool.true

-- `tryDecode`: `avail` is the length of the list.
unfoldable pub try_decode : Bytes → DecodeResult
try_decode buf =
    let len = read_le 2 buf in
    let type = msg_type_of (read_le 1 (drop 2 buf)) in
    if ltb (length buf) min_frame_len
    then DecodeResult.need_more
    else if ltb len min_frame_len || ltb max_frame_len len
    then DecodeResult.invalid
    else if known type
    then (if ltb (length buf) len then DecodeResult.need_more else DecodeResult.ok type len)
    else DecodeResult.invalid
