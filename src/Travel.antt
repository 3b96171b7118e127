-- ===== src/Travel.antt =====
-- app/services/travel_order_service.py: travel orders, their places and the points paid for them.
pub mod Model
pub mod Cancel
pub mod Tests
pub mod Journey
