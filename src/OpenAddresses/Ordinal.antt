-- ===== src/OpenAddresses/Ordinal.antt =====
-- `ordinal` of server/src/openaddresses.rs: "1st", "22nd", "113th".
use geocoder.Prelude.{ℕ, ◌%◌, ◌++◌, ◌&&◌, leb, ◌==◌, if◌then◌else◌, Text, codes}
use geocoder.Strings.Decimal.{decimal}

unfoldable pub ordinal_suffix : ℕ → Text
ordinal_suffix n =
    if leb 11 (n % 100) && leb (n % 100) 13
    then codes "th"
    else if n % 10 == 1
    then codes "st"
    else if n % 10 == 2
    then codes "nd"
    else if n % 10 == 3
    then codes "rd"
    else codes "th"

unfoldable pub ordinal : ℕ → Text
unfolding decimal ordinal_suffix
ordinal n = decimal n ++ ordinal_suffix n
