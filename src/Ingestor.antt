-- ===== src/Ingestor.antt =====
-- services/event-ingestor: from the raw topics to the database, the topic of valid measurements and the topic of dead
-- letters.
pub mod Model
pub mod Processor
pub mod Consumer
