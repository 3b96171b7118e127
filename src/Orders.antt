-- ===== src/Orders.antt =====
-- app/services/order_service.py: the life of a commerce order, from its creation with a stock
-- reservation in Redis to its payment, cancellation or refund.
pub mod Model
pub mod Redis
pub mod Pay
pub mod Cancel
pub mod Basket
pub mod Create
pub mod Stock
pub mod Returned
pub mod Tests
pub mod WeChat
pub mod Timeout
pub mod Routes
