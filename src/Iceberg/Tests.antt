-- ===== src/Iceberg/Tests.antt =====
-- The theorem about core/iceberg_sink.py at a batch that writes one row twice.
use dremio_cdc.Prelude.{◌≡◌, List, [], ◌∷◌, Text}
use mathlib.Core.List.{reverse}
use dremio_cdc.Prelude.Chars.{codes}
use dremio_cdc.Prelude.Int.{pos}
use dremio_cdc.Event.{Value, ChangeEvent}
use dremio_cdc.Samples.{inserted}
use dremio_cdc.Iceberg.{newest}
use dremio_cdc.Iceberg.Newest.{Once, first_writer, newest_of_each_key}

abbrev pk : List Text
pk = codes "id" ∷ []

abbrev twice : List ChangeEvent
twice = inserted 1 (codes "1") 1 ∷ inserted 1 (codes "2") 2 ∷ []

newest_of_each_key_example :
    Once pk (newest pk (reverse twice) [])
    × (first_writer pk (Value.int (pos 1) ∷ []) (newest pk (reverse twice) [])
        ≡ first_writer pk (Value.int (pos 1) ∷ []) (reverse twice))
newest_of_each_key_example = newest_of_each_key pk (Value.int (pos 1) ∷ []) twice
