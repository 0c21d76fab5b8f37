-- ===== src/Ingest.antt =====
-- services/ingest: the process of a site that writes MQTT messages to TimescaleDB.
pub mod Codec
pub mod Buffer
pub mod Delivery
