-- ===== src/Tests/AddressPointFiles.antt =====
-- The cell index of server/src/address_points.rs, written and read.
use geocoder.Prelude.{ℕ, List, [], ◌∷◌, ◌≡◌, refl, arith, done, and_then, take}
use geocoder.Bytes.{slice, read_le, to_le}
use geocoder.Search.{binary_search}
use geocoder.AddressPoints.{Output, write_output, run_length, write_ids, cell_ids}
use geocoder.AddressPoints.Places.{positions}
use geocoder.AddressPoints.RoundTrip.{cell_ids-write_output}

abbrev records : List (ℕ × ℕ)
records = (5, 0) ∷ (5, 1) ∷ (9, 2) ∷ (12, 3) ∷ (12, 4) ∷ (12, 5) ∷ []

written_and_read :
    and_then (write_output records) (λ out. cell_ids out.cells out.entries 12)
    ≡ done (3 ∷ 4 ∷ 5 ∷ [])
unfolding write_output run_length write_ids to_le cell_ids slice read_le binary_search
written_and_read = refl

places_of_12 : positions 12 0 records ≡ 3 ∷ 4 ∷ 5 ∷ []
unfolding positions
places_of_12 = refl

cell_ids-write_output_example :
    (out : Output) × (write_output records ≡ done out)
    × (cell_ids out.cells out.entries 12 ≡ done (take 65535 (positions 12 0 records)))
cell_ids-write_output_example =
    cell_ids-write_output records 12 (omega arith) (omega arith) (omega arith)
