-- ===== src/Lib.antt =====
-- A model of the pdeaudney/geocoder server: how it reads its binary indexes, how its builders write
-- them, and how it compares what a user typed with what an index holds.
--
-- The builders (server/src/bin) turn address and locality data into memory-mapped files. The server
-- binary-searches those files for every request. House numbers and names are compared by the rules
-- of server/src/housenumber.rs and server/src/postcode.rs, which both sides use. What a user typed
-- goes through the tokeniser and the parser of server/src/forward.rs before any index is asked.
--
-- The files of this library:
--   Prelude        names of the libraries, tests on numbers, lists, `str` as a list of code points,
--                  and `Outcome`: a value, a panic, or fuel that ran out;
--   Strings        `trim`, `split`, `split_once`, `join`, decimal numbers; the tables of characters of
--                  the standard library, which are a parameter; UTF-8;
--   Bytes          slices, little-endian numbers, tables of rows of one size, UTF-8 decoding;
--   Search         the binary search that the readers share, and the builders' sort;
--   AddressPoints  server/src/address_points.rs (`lookup_cell_offset`, `for_each_point_in_cell`) and
--                  `write_output` of server/src/bin/build_openaddresses_index.rs;
--                  `AddressPoints/Find` has the searches over the cells around a query;
--   Admin          `find_admin` of server/src/lib.rs and the mapping of levels to fields of
--                  server/src/admin_config.rs;
--   GeoIndex       the readers of server/src/lib.rs (`lookup_geo_cell`, `lookup_admin_cell`,
--                  `for_each_entry`, `get_string`, `contains_ignore_ascii_case`), `find_place` and
--                  `find_poi` (`GeoIndex/Places`) and the loops of `query_geo` (`GeoIndex/Streets`);
--   Autocomplete   server/src/autocomplete.rs (`CountryPrefixAutomaton`, `heap_push_bounded` and the
--                  loop around it, `normalise_prefix`, `fold_place_abbreviations`,
--                  `collect_countries`, `search` and the searches that it calls);
--   Display        server/src/lib.rs (`format_rules`, `format_address`,
--                  `country_to_state_abbreviation`);
--   Fetcher        `ReplicationState` of server/src/fetcher/state.rs;
--   H3Cell         server/src/h3_cell.rs (`parse_h3_res`);
--   Housenumber    server/src/housenumber.rs (`parse_hn`, `housenumber_matches`,
--                  `parse_au_unit_address`);
--   I18n           server/src/i18n.rs (`alternates_for`);
--   Importer       `simplify_dp` of tools/wof-importer/src/main.rs;
--   OpenAddresses  server/src/openaddresses.rs (`oa_prefix`, `parse_oa_country_prefix`, `ordinal` and
--                  the loop over a directory in `open`);
--   Postcode       server/src/postcode.rs (`normalise_locality`, `lookup_hash`, `postcode`) and
--                  server/src/bin/build_postcode_lookup.rs (`modal_postcodes_by_key`, the emitting
--                  pass);
--   Shadow         server/src/shadow.rs (`resolve_shadow_enabled`, `try_send`, the loop of `run` and
--                  `execute_job` as events of one state, `percent_encode`, `from_body`, `compare`);
--   Query          server/src/forward.rs (`tokenize_user_input`, `parse_freeform_query_in_country` and
--                  what they call: `Query/Words` and `Query/Tokens` for words, `Query/Postcodes`,
--                  `Query/States`, `Query/Country` and `Query/UnitPrefix` for the parts of an address,
--                  `Query/Freeform` for the loop over the tokens, `Query/Address` for the whole,
--                  `Query/Phrase` for `canonicalise_phrase`, which spells an indexed name);
--   Telemetry      server/src/telemetry.rs (`DedupFilter::should_emit`, the settings);
--   Tests          runs on small inputs.
--
-- A `usize` is a natural number, since the code only adds small numbers to offsets into a mapped
-- file. A u32 or u64 that the code computes with wraps at 2 ^ 32 or 2 ^ 64. An index out of range
-- is `panic`. The loops of the readers run on fuel, the number of rows for a search, and the
-- theorems show that it does not run out; the stack of `simplify_dp` runs on twice the number of
-- vertices. A hash map that is walked is a list of its entries in the
-- order of the walk; one that is only asked is a function. A text is the list of its characters in
-- the parsers and the list of its bytes in the files.
--
-- The tasks of the shadow worker interleave: an event is what one task does between two points at
-- which it may wait, and the theorems hold for every sequence of events.
--
-- Not modelled: opening and mapping files, floating-point arithmetic (distances and their
-- comparison are parameters of the searches, the tests of a point in a polygon too), the search
-- over tantivy, the HTTP and gRPC layers, the third-party crates (S2, H3, tantivy, fst, chrono,
-- serde), and the C++ builder. `query_geo` ends with its three best candidates, before the house
-- number on an interpolated way; `try_send` is without its branch for a closed channel, since the
-- worker of the model never ends.
pub mod Prelude
pub mod Strings
pub mod Bytes
pub mod Search
pub mod AddressPoints
pub mod Admin
pub mod Autocomplete
pub mod Display
pub mod Fetcher
pub mod GeoIndex
pub mod H3Cell
pub mod Housenumber
pub mod I18n
pub mod Importer
pub mod OpenAddresses
pub mod Postcode
pub mod Query
pub mod Shadow
pub mod Telemetry
pub mod Tests
