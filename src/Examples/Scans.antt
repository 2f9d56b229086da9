-- ===== src/Examples/Scans.antt =====
-- Scans of a small file.
use jpg_spinner.Prelude.{◌∷◌, [], length, arith}
use jpg_spinner.Domain.Failure.{production}
use jpg_spinner.Domain.Geometry.{baseline_dct_huffman}
use jpg_spinner.Jpeg.Bytes.{Bytes}
use jpg_spinner.Jpeg.FrameHeader.Supported.{IsHeaderOf, parse_frame_header-Ensures}
use jpg_spinner.Jpeg.FrameHeader.{parse_frame_header}
use jpg_spinner.Jpeg.Outcome.{Ensures}
use jpg_spinner.Jpeg.Scanner.Total.{
  IsBehindImage, scan-Ensures, initial-IsConsistent, scan-trailing_data_range,
}
use jpg_spinner.Jpeg.Scanner.{scan, initial_state}
use jpg_spinner.Jpeg.Steps.Consistent.{IsSound, IsNext}
use jpg_spinner.Jpeg.Steps.Rounds.{step-Ensures}
use jpg_spinner.Jpeg.Steps.{step, segment_marker}

-- A baseline file of one pixel: SOI, SOF0, SOS, three bytes of entropy-coded data, EOI.
abbrev pub small_file : Bytes
small_file =
    0xFF ∷ 0xD8 ∷ 0xFF ∷ 0xC0 ∷ 0x00 ∷ 0x0B ∷ 0x08 ∷ 0x00 ∷ 0x01 ∷ 0x00 ∷ 0x01 ∷ 0x01 ∷ 0x01 ∷ 0x11
    ∷ 0x00 ∷ 0xFF ∷ 0xDA ∷ 0x00 ∷ 0x08 ∷ 0x01 ∷ 0x01 ∷ 0x00 ∷ 0x00 ∷ 0x3F ∷ 0x00 ∷ 0x12 ∷ 0xFF
    ∷ 0x00 ∷ 0xFF ∷ 0xD9 ∷ []

scan-Ensures_example : Ensures (IsSound small_file production) (scan small_file production)
scan-Ensures_example = scan-Ensures small_file production

scan-trailing_data_range_example :
    Ensures (IsBehindImage (length small_file)) (scan small_file production)
scan-trailing_data_range_example = scan-trailing_data_range small_file production

step-Ensures_example :
    Ensures (IsNext small_file production initial_state) (step small_file production initial_state)
step-Ensures_example =
    step-Ensures small_file production initial_state
      (initial-IsConsistent small_file production (omega arith)) (omega arith)

parse_frame_header-Ensures_example :
    Ensures
      (IsHeaderOf (segment_marker 0xC0 3 11) baseline_dct_huffman 1)
      (parse_frame_header small_file (segment_marker 0xC0 3 11) baseline_dct_huffman 1)
parse_frame_header-Ensures_example =
    parse_frame_header-Ensures small_file (segment_marker 0xC0 3 11) baseline_dct_huffman 1
      (omega arith)
