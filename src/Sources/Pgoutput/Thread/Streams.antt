-- ===== src/Sources/Pgoutput/Thread/Streams.antt =====
-- What the streams of sources/postgres.py yield, however the replication thread, the registrations
-- and the readers take turns.
use dremio_cdc.Prelude.{◌≡◌, ◌⊎◌, true, Text, text_eq}
use dremio_cdc.Outcome.{Outcome}
use dremio_cdc.Sources.Pgoutput.Thread.{Message, Thread}
use dremio_cdc.Sources.Pgoutput.Thread.Kept.{Kept}

module _ (key : Text) where
  -- A registration has made the loop over the short names raise, or all is kept.
  abbrev Inv : Thread → Type 0
  Inv s = (s.broke ≡ true) ⊎ Kept key s
