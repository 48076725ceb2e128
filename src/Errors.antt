-- ===== src/Errors.antt =====
-- `enum _chd_error` of include/libchdr/chd.h.
pub data ChdError : Type 0 where
  no_error no_interface out_of_memory invalid_file invalid_parameter invalid_data : ChdError
  file_not_found requires_parent file_not_writeable read_error write_error : ChdError
  codec_error invalid_parent hunk_out_of_range decompression_error compression_error : ChdError
  cant_create_file cant_verify not_supported metadata_not_found invalid_metadata_size : ChdError
  unsupported_version verify_incomplete invalid_metadata invalid_state : ChdError
  operation_pending no_async_operation unsupported_format : ChdError
