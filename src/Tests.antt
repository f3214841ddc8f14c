-- ===== src/Tests.antt =====
-- Runs of the definitions on small inputs, and each theorem at an input that meets its hypotheses.
mod Housenumbers
mod AddressPointFiles
mod PostcodeFiles
mod Queries
mod AddressSearches
mod DisplayNames
mod GeoFiles
mod GoogleAnswers
mod AlternateNames
mod Autocompletions
mod Resolutions
mod ShadowRuns
mod ShardNames
mod QueryTheorems
mod LogFilter
mod AdminAreas
mod ReplicationFiles
mod Coastlines
mod NearbyPlaces
mod NearbyStreets
mod Phrases
mod PrefixSearches
