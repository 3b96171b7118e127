-- ===== src/Orders/WeChat.antt =====
-- app/services/wechat_pay_service.py: the checks of what the payment service reports. Its answers are arguments:
-- the keys of a JSON object as options, texts as they stand. An amount is in fen.
use python_server.Base.{
  ◌-◌, Bool, true, false, not, ◌&&◌, Option, none, some, List, [], ◌∷◌, Text, codes, text_eq, leb,
  map, if◌then◌else◌, is_empty, option_or, Result, ok, err, ◌>>=◌, wechat_pay_not_success,
  wechat_pay_order_mismatch, wechat_pay_amount_mismatch, invalid_wechat_pay_amount,
  wechat_refund_order_mismatch, wechat_refund_amount_mismatch,
}
use python_server.Base.Int.{ℤ, pos, negsuc, ltb_ℤ}
use python_server.Orders.Model.{Order}

-- The settings, empty where they are missing.
pub record Merchant : Type 0 where
  pub mini_app_id : Text
  pub mch_id : Text
  pub api_v3_key : Text
  pub notify_url : Text
  pub merchant_serial_no : Text
  pub merchant_private_key_path : Text
  pub pay_public_key_id : Text
  pub pay_public_key_path : Text

abbrev pub all_set : List Text → Bool
all_set [] = true
all_set (s ∷ ss) = not (is_empty s) && all_set ss

abbrev pub is_wechat_pay_configured : Merchant → Bool
is_wechat_pay_configured m =
    all_set (
      m.mini_app_id ∷ m.mch_id ∷ m.api_v3_key ∷ m.notify_url ∷ m.merchant_serial_no
      ∷ m.merchant_private_key_path ∷ [])
    && (not (is_empty m.pay_public_key_id) && not (is_empty m.pay_public_key_path))

-- A number under a key: missing, not to be read by `int`, or read.
pub data Total : Type 0 where
  missing : Total
  unreadable : Total
  total : ℤ → Total

pub record Transaction : Type 0 where
  pub trade_state : Option Text
  pub mchid : Option Text
  pub appid : Option Text
  pub out_trade_no : Text
  pub amount_total : Total
  pub currency : Option Text
  pub transaction_id : Text

abbrev pub is_text : Text → Option Text → Bool
is_text s none = false
is_text s (some t) = text_eq s t

abbrev pub eq_ℤ : ℤ → ℤ → Bool
eq_ℤ a b = not (ltb_ℤ a b) && not (ltb_ℤ b a)

-- `yuan_to_fen` of an amount in whole fen.
abbrev pub yuan_to_fen : ℤ → Result ℤ
yuan_to_fen cents = if ltb_ℤ cents (pos 1) then err invalid_wechat_pay_amount else ok cents

-- `int(amount.get(..., -1))`
abbrev pub read_total : Total → Option ℤ
read_total missing = some (negsuc 0)
read_total unreadable = none
read_total (total n) = some n

abbrev pub check_transaction_id : Text → Result Text
check_transaction_id id = if is_empty id then err wechat_pay_order_mismatch else ok id

abbrev pub check_paid : Order → Transaction → ℤ → Result Text
check_paid o t paid_total =
    if not (text_eq (option_or (codes "CNY") t.currency) (codes "CNY"))
    then err wechat_pay_amount_mismatch
    else (yuan_to_fen o.payable_amount >>= λ fen.
        if eq_ℤ paid_total fen
        then check_transaction_id t.transaction_id
        else err wechat_pay_amount_mismatch)

-- `validate_successful_transaction`
unfoldable pub validate_successful_transaction : Merchant → Order → Transaction → Result Text
validate_successful_transaction m o t =
    if not (is_text (codes "SUCCESS") t.trade_state)
    then err wechat_pay_not_success
    else if not (is_text m.mch_id t.mchid)
    then err wechat_pay_order_mismatch
    else if not (is_text m.mini_app_id t.appid)
    then err wechat_pay_order_mismatch
    else if not (text_eq t.out_trade_no o.order_no)
    then err wechat_pay_order_mismatch
    else elim (read_total t.amount_total) [
      | none ↦ err wechat_pay_amount_mismatch
      | some paid_total ↦ check_paid o t paid_total
    ]

pub record RefundReport : Type 0 where
  pub out_trade_no : Text
  pub out_refund_no : Text
  pub amount_refund : Total
  pub refund_status : Text
  pub status : Text
  pub refund_id : Text

abbrev pub or_text : Text → Text → Text
or_text s t = if is_empty s then t else s

-- `str.upper`, of the ASCII letters.
abbrev pub upper : Text → Text
upper = map (λ c. if leb 97 c && leb c 122 then c - 32 else c)

abbrev pub refund_outcome : RefundReport → Text × Text
refund_outcome r =
    (upper (or_text r.refund_status (or_text r.status (codes "PROCESSING"))), r.refund_id)

-- `validate_refund_result`
unfoldable pub validate_refund_result : Order → RefundReport → Text → Result (Text × Text)
validate_refund_result o r refund_no =
    if not (text_eq (or_text r.out_trade_no o.order_no) o.order_no)
    then err wechat_refund_order_mismatch
    else if not (text_eq r.out_refund_no refund_no)
    then err wechat_refund_order_mismatch
    else elim (read_total r.amount_refund) [
      | none ↦ err wechat_refund_amount_mismatch
      | some refund_total ↦
          (yuan_to_fen o.payable_amount >>= λ fen.
          if eq_ℤ refund_total fen
          then ok (refund_outcome r)
          else err wechat_refund_amount_mismatch)
    ]
