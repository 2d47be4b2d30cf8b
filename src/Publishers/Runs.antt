-- ===== src/Publishers/Runs.antt =====
-- Runs of the conversions of publishers, datasets and venues.
use databento_cpp.Base.{◌≡◌, refl, some, ◌↔◌}
use Prim.Native.String.{◌++◌}
use databento_cpp.Publishers.Venue
use databento_cpp.Publishers.Venue.{Venue}
use databento_cpp.Publishers.Dataset
use databento_cpp.Publishers.Dataset.{Dataset}
use databento_cpp.Publishers.Publisher
use databento_cpp.Publishers.Publisher.{Publisher}
use databento_cpp.Publishers.FromString.{from_string}
use databento_cpp.Publishers.PublisherVenue.{publisher_venue}
use databento_cpp.Publishers.PublisherDataset.{publisher_dataset}
use databento_cpp.Publishers.RoundTrip.{publisher_from_string_iff}
use databento_cpp.Publishers.Parts.{to_string-Parts}

to_string-Parts_example :
    (d : Dataset) × (v : Venue) × (publisher_dataset Publisher.xnas_itch_xnas ≡ some d)
    × (publisher_venue Publisher.xnas_itch_xnas ≡ some v)
    × (Publisher.to_string Publisher.xnas_itch_xnas
        ≡ Dataset.to_string d ++ ("." ++ Venue.to_string v))
to_string-Parts_example = to_string-Parts Publisher.xnas_itch_xnas refl

publisher_from_string_iff_example :
    (from_string "XNAS.ITCH.XNAS" ≡ some Publisher.xnas_itch_xnas)
    ↔ (Publisher.to_string Publisher.xnas_itch_xnas ≡ "XNAS.ITCH.XNAS")
publisher_from_string_iff_example =
    publisher_from_string_iff "XNAS.ITCH.XNAS" Publisher.xnas_itch_xnas refl
