-- ===== src/Examples/Symbols.antt =====
-- The symbols of one error.
use jpg_spinner.Domain.Failure.{recovery_conflict, original_replacement, pixel_count}
use jpg_spinner.Domain.SymbolicNames.Found.{
  named, all_codes, all_stages, all_limits, symbolic_names_found,
}
use jpg_spinner.Domain.SymbolicNames.{
  symbolic_name_of_code, symbolic_name_of_stage, symbolic_name_of_limit,
}
use jpg_spinner.Prelude.{◌≡◌, some}

symbolic_names_found_example :
    (named symbolic_name_of_code all_codes (symbolic_name_of_code recovery_conflict)
      ≡ some recovery_conflict)
    × (named symbolic_name_of_stage all_stages (symbolic_name_of_stage original_replacement)
        ≡ some original_replacement)
    × (named symbolic_name_of_limit all_limits (symbolic_name_of_limit pixel_count)
        ≡ some pixel_count)
symbolic_names_found_example =
    symbolic_names_found recovery_conflict original_replacement pixel_count
