-- ===== src/Rtsp/Describe/Parsed.antt =====
-- A whole DESCRIBE response, as `rtsp_parse_describe_response` of camera/rtsp.c reads it.
