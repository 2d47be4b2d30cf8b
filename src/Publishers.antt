-- ===== src/Publishers.antt =====
-- src/publishers.cpp: the publishers, their datasets and their venues.
pub mod Venue
pub mod Dataset
pub mod Publisher
pub mod FromString
pub mod RoundTrip
pub mod PublisherVenue
pub mod PublisherDataset
pub mod Parts
mod Runs
