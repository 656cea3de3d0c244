-- ===== src/Types/Runs.antt =====
-- Runs of the wire vocabulary of src/types.
use medius.Base.{◌≡◌, arith, some}
use medius.Types.Direction.{Direction, dir_as_u8}
use medius.Types.Catch.Wire.{from_wire-wire}
use medius.Types.Catch.{CatchClass, CatchFilter, Capture, capture_u8, wire, from_wire}

-- Sixteen bytes of each packet from interface 2.
abbrev report_filter : CatchFilter
report_filter = record {
  class = some CatchClass.hid_in;
  id = some 2;
  direction = Direction.positive;
  capture = Capture.first 16;
}

from_wire-wire_example :
    from_wire
      (wire report_filter).0
      (wire report_filter).1
      (dir_as_u8 report_filter.direction)
      (capture_u8 report_filter.capture)
    ≡ some report_filter
from_wire-wire_example =
    from_wire-wire report_filter ((omega arith, λ h. ground (arith, h)), (omega arith, omega arith))
