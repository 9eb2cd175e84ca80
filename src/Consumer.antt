-- ===== src/Consumer.antt =====
-- consumer_example/consumer.py: the example consumer.
pub mod Handler
pub mod Once
