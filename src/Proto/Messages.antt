-- ===== src/Proto/Messages.antt =====
-- include/lx/proto/messages.hpp: the wire structs. A byte field that the code compares with the
-- enumerators may hold any byte; `raw` stands for the values that no enumerator has.
use lite_exchange.Base.{ℕ, ℤ, ◌==◌, Bool, if◌then◌else◌}

pub data MsgType : Type 0 where
  logon new_order cancel_order ack reject fill : MsgType
  raw : ℕ → MsgType

unfoldable pub msg_type_code : MsgType → ℕ
msg_type_code MsgType.logon = 0x01
msg_type_code MsgType.new_order = 0x02
msg_type_code MsgType.cancel_order = 0x03
msg_type_code MsgType.ack = 0x81
msg_type_code MsgType.reject = 0x82
msg_type_code MsgType.fill = 0x83
msg_type_code (MsgType.raw n) = n

-- The value of type `MsgType` that a byte holds.
unfoldable pub msg_type_of : ℕ → MsgType
msg_type_of n =
    if n == 0x01
    then MsgType.logon
    else if n == 0x02
    then MsgType.new_order
    else if n == 0x03
    then MsgType.cancel_order
    else if n == 0x81
    then MsgType.ack
    else if n == 0x82
    then MsgType.reject
    else if n == 0x83
    then MsgType.fill
    else MsgType.raw n

pub data Side : Type 0 where
  buy sell : Side
  raw : ℕ → Side

pub data TimeInForce : Type 0 where
  gtc ioc : TimeInForce
  raw : ℕ → TimeInForce

pub data RejectReason : Type 0 where
  unknown_symbol invalid_price invalid_qty unknown_order : RejectReason

pub record Header : Type 0 where
  pub len : ℕ
  pub type : MsgType
  pub flags : ℕ
  pub session_id : ℕ

pub record NewOrder : Type 0 where
  pub hdr : Header
  pub order_id : ℕ
  pub price : ℤ
  pub qty : ℕ
  pub symbol_id : ℕ
  pub side : Side
  pub tif : TimeInForce

pub record CancelOrder : Type 0 where
  pub hdr : Header
  pub order_token : ℕ

pub record Ack : Type 0 where
  pub hdr : Header
  pub order_id : ℕ
  pub order_token : ℕ

pub record Reject : Type 0 where
  pub hdr : Header
  pub order_id : ℕ
  pub reason : RejectReason

pub record Fill : Type 0 where
  pub hdr : Header
  pub aggressor_id : ℕ
  pub resting_id : ℕ
  pub price : ℤ
  pub qty : ℕ

-- The unions by their active member; `header` is a message of which only the header was written.
pub data InboundMsg : Type 0 where
  header : Header → InboundMsg
  new_order : NewOrder → InboundMsg
  cancel : CancelOrder → InboundMsg

pub data OutboundMsg : Type 0 where
  ack : Ack → OutboundMsg
  reject : Reject → OutboundMsg
  fill : Fill → OutboundMsg

-- `hdr` is readable through any member.
abbrev pub inbound_hdr : InboundMsg → Header
inbound_hdr (InboundMsg.header h) = h
inbound_hdr (InboundMsg.new_order m) = m.hdr
inbound_hdr (InboundMsg.cancel m) = m.hdr

abbrev pub outbound_hdr : OutboundMsg → Header
outbound_hdr (OutboundMsg.ack m) = m.hdr
outbound_hdr (OutboundMsg.reject m) = m.hdr
outbound_hdr (OutboundMsg.fill m) = m.hdr

abbrev pub is_buy : Side → Bool
is_buy Side.buy = Bool.true
is_buy Side.sell = Bool.false
is_buy (Side.raw n) = Bool.false

abbrev pub is_ioc : TimeInForce → Bool
is_ioc TimeInForce.gtc = Bool.false
is_ioc TimeInForce.ioc = Bool.true
is_ioc (TimeInForce.raw n) = Bool.false
