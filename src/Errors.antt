-- ===== src/Errors.antt =====
-- The messages of the `String` errors, one constructor for each text of the source. The parts of a
-- message that are formatted from values are dropped.
pub data Error : Type 0 where
  -- src/codec.rs
  string_too_long short_string not_utf8 short_body empty_entry duplicate_entry : Error
  -- src/log.rs, bodies and pages
  namespace_required too_many_props record_too_large record_larger_than_page : Error
  zero_schema_version trailing_body_bytes used_past_page short_record_len short_record_body : Error
  short_page checksum_mismatch bad_magic unmigrated already_namespaced : Error
  uncertain_commit io_error missing_superblock short_read committed_missing : Error
  past_committed no_keys : Error
  -- src/page.rs
  cursor_not_token cursor_malformed cursor_version cursor_truncated cursor_stale : Error
  cursor_mismatch : Error
  -- src/overlay.rs and src/schema.rs
  needs_timestamps needs_conflict_time needs_overlay_at needs_source_timestamp : Error
  rename_collides strategy_unknown timestamp_invalid : Error
  -- src/value.rs
  no_t no_timezone offset_invalid offset_out_of_range two_digits_invalid date_invalid : Error
  time_invalid time_out_of_range fraction_invalid year_out_of_range month_out_of_range : Error
  day_out_of_range timestamp_overflows year_overflows year_underflows : Error
  unknown_type scale_not_canonical scale_not_integer scale_exceeds dim_not_canonical : Error
  dim_not_integer dim_out_of_range not_canonical boolean_invalid integer_overflows : Error
  decimal_overflows decimal_digits range_undefined mixed_types vector_length component_invalid :
      Error
  component_not_finite distance_not_finite needs_vector ref_empty ref_too_long ref_invalid : Error
  series_malformed series_reversed coordinate_invalid coordinate_out_of_range point_malformed :
      Error
  shape_malformed shape_reversed bbox_reversed bbox_undefined : Error
  -- src/schema.rs, descriptors
  token_empty token_start token_invalid kind_reserved name_duplicate name_undeclared : Error
  link_reserved link_undeclared link_not_string sum_type_invalid time_not_timestamp : Error
  kind_mismatch property_unknown property_missing link_empty cast_failed : Error
  version_invalid rename_duplicate rename_target_duplicate rename_lost rename_no_op : Error
  rename_source_unknown rename_target_unknown rename_target_taken rename_source_kept : Error
  drop_not_breaking drop_undeclared cast_not_breaking cast_undeclared : Error
  retarget_not_breaking retarget_undeclared : Error
  schema_kind_expected schema_property_missing schema_entry_empty schema_entry_duplicate : Error
  schema_token_empty version_not_canonical version_not_integer version_zero : Error
  entry_malformed entry_part_empty entry_duplicate direction_invalid cardinality_invalid : Error
  schema_property_unknown : Error
  -- src/overlay.rs, rows
  overlay_kind_expected overlay_kind_reserved overlay_key_malformed overlay_identity_empty : Error
  overlay_key_slash overlay_name_reserved overlay_entry_empty overlay_entry_duplicate : Error
  cleared_overridden : Error
  -- src/store/mod.rs
  action_id_required expected_gen_mismatch action_id_reused hide_not_live set_empty set_too_large :
      Error
  body_conflict cursor_hidden cursor_key_invalid cursor_props_invalid cursor_offset_invalid : Error
  namespace_unknown tenant_invalid identity_unknown version_unknown version_past : Error
  set_identity_twice kind_not_writable action_on_reserved not_visible : Error
  -- An `expect` or a slice out of range, which Rust turns into a panic.
  panic : Error
