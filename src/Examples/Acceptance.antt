-- ===== src/Examples/Acceptance.antt =====
-- The scan of the small file, from its first byte to its inventory.
use jpg_spinner.Prelude.{◌≡◌, refl, ◌∷◌, []}
use jpg_spinner.Domain.Failure.{production}
use jpg_spinner.Domain.Geometry.{baseline_dct_huffman}
use jpg_spinner.Examples.Scans.{small_file}
use jpg_spinner.Jpeg.Inventory.{range, JpegMarkerInventory}
use jpg_spinner.Jpeg.Outcome.{success}
use jpg_spinner.Jpeg.Steps.Consistent.{end_of_image_at, start_of_image}
use jpg_spinner.Jpeg.Steps.{segment_marker}
use jpg_spinner.Jpeg.Bytes.{
  byte_at, big_endian, try_read_big_endian, try_read_big_endian_unsigned_16, skip_rounds,
  skip_marker_prefixes, equal_at,
}
use jpg_spinner.Jpeg.Jumbf.{
  step_marker as jumbf_step_marker, step_markers, conclude as jumbf_conclude,
  classify_jumbf_envelope,
}
use jpg_spinner.Jpeg.Segments.{
  account_metadata, record_exif, record_standard_xmp, record_extended_xmp, refuse_multi_picture,
  record_icc_profile, record_metadata,
}
use jpg_spinner.Jpeg.Steps.{
  entropy_marker, step_entropy, conclude as image_conclude, accept_metadata, finish_image,
  begin_frame, begin_scan, begin_segment, step_segment, marker_code, marker_behind_fill,
  step_marker as image_step_marker, step,
}
use jpg_spinner.Jpeg.Scanner.{scan_loop, scan}
use jpg_spinner.Jpeg.Fragments.{interrupt}
use jpg_spinner.Jpeg.FrameHeader.{
  parse_components, parse_frame_body, parse_frame_header, is_valid_scan_header,
}
use jpg_spinner.Jpeg.Markers.{
  is_restart_marker, is_metadata_marker, supported_coding_process_for,
  is_unsupported_coding_process_marker, is_progressive_coding_process, marker_payload_starts_with,
}
use jpg_spinner.Jpeg.IccChunks.{validate_and_order_icc_profile_chunks}
use jpg_spinner.Jpeg.XmpChunks.{validate_and_order_extended_xmp_chunks}

abbrev pub small_inventory : JpegMarkerInventory
small_inventory = record {
  encoded_source_length_bytes = 30;
  frame_header = record {
    coding_process = baseline_dct_huffman;
    sample_precision_bits = 8;
    dimensions = record { width = 1; height = 1 };
    components =
        record {
          component_identifier = 1;
          horizontal_sampling_factor = 1;
          vertical_sampling_factor = 1;
          quantization_table_selector = 0;
        }
        ∷ [];
    encoded_range = range 2 13;
  };
  scan_count = 1;
  metadata_encoded_length_bytes = 0;
  end_of_image_marker_offset_bytes = 28;
  markers =
      start_of_image
      ∷ segment_marker 0xC0 3 11
      ∷ segment_marker 0xDA 16 8
      ∷ end_of_image_at 28
      ∷ [];
  entropy_coded_data_ranges = range 25 3 ∷ [];
  metadata_segments = record {
    exif_tiff_data_ranges = [];
    standard_xmp_packet_ranges = [];
    icc_profile_chunks = [];
    extended_xmp_chunks = [];
  };
}

pub small_file_accepted : scan small_file production ≡ success small_inventory
unfolding byte_at big_endian try_read_big_endian try_read_big_endian_unsigned_16 skip_rounds
    skip_marker_prefixes equal_at jumbf_step_marker step_markers jumbf_conclude
    classify_jumbf_envelope account_metadata record_exif record_standard_xmp record_extended_xmp
    refuse_multi_picture record_icc_profile record_metadata entropy_marker step_entropy
    image_conclude accept_metadata finish_image begin_frame begin_scan begin_segment step_segment
    marker_code marker_behind_fill image_step_marker step scan_loop scan interrupt parse_components
    parse_frame_body parse_frame_header is_valid_scan_header is_restart_marker is_metadata_marker
    supported_coding_process_for is_unsupported_coding_process_marker is_progressive_coding_process
    marker_payload_starts_with validate_and_order_icc_profile_chunks
    validate_and_order_extended_xmp_chunks
small_file_accepted = refl
