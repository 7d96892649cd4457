-- ===== src/Padding/Reset/Tests.antt =====
-- Runs of the DATA frame in front of a reset (src/padding.c), and its theorem at one of them.
use ngx_http_tunnel_module.Common.{◌%◌, ◌/◌, true, false, [], ◌∷◌, replicate, ◌≡◌, refl, ◌⊎◌}
use ngx_http_tunnel_module.Rc.{again}
use ngx_http_tunnel_module.Padding.Reset.{
  pos, Stream, Http2, frame_bytes, prepend_rst_stream_data, rst_stream_data_handler, post_write,
  count_frame, queue_frame, send_queue, settle, may_prepend,
}
use ngx_http_tunnel_module.Padding.Reset.Wire.{IsHttp2}
use ngx_http_tunnel_module.Padding.Reset.Queue.{IsPrepended, prepend_rst_stream_data-IsPrepended}

-- Nothing leaves the queue; the frame is of 50 bytes.
abbrev slow : Http2
slow = record {
  frame_header_size = 9;
  data_frame = 0;
  end_stream_flag = 1;
  padded_flag = 8;
  len_and_type = λ size kind. size / 65536 % 256 ∷ size / 256 % 256 ∷ size % 256 ∷ kind ∷ [];
  sid = λ id. 0 ∷ 0 ∷ 0 ∷ id % 256 ∷ [];
  random = 27;
  frame_room = true;
  link_room = true;
  buf_room = true;
  send_output_queue = λ s. (again, s);
}

slow-IsHttp2 : IsHttp2 slow
slow-IsHttp2 = record {
  header = refl;
  data_frame = refl;
  flags = refl;
  len_and_type = λ size kind. refl;
  sid = λ id. (0, 0, 0, id % 256, refl);
}

abbrev stream : Stream
stream = record {
  is_http2 = true;
  has_stream = true;
  header_sent = true;
  out_closed = false;
  rst_sent = false;
  connection_error = false;
  connection_window = 100;
  window = pos 41;
  id = 5;
  queued = 0;
  waiting = false;
  blocked = false;
  free_frames = 0;
  queue = [];
  h2c_buffered = false;
  total_bytes = 1000;
  payload_bytes = 900;
  c_sent = 0;
  c_error = false;
  c_buffered = false;
  header_size = 0;
  write_active = false;
  write_ready = true;
  write_delayed = false;
  posted = 0;
}

abbrev result : Stream
result = prepend_rst_stream_data slow true stream

queues :
    (result.queue
      ≡ record {
        bytes = 0 ∷ 0 ∷ 41 ∷ 0 ∷ 9 ∷ 0 ∷ 0 ∷ 0 ∷ 5 ∷ 40 ∷ replicate 40 0;
        size = 41;
        fin = true;
      }
        ∷ [])
    × (result.window ≡ pos 0)
    × (result.connection_window ≡ 59)
    × (result.c_buffered ≡ true)
unfolding prepend_rst_stream_data may_prepend queue_frame send_queue settle frame_bytes
queues = (refl, refl, refl, refl)

window_too_small :
    prepend_rst_stream_data slow true (record stream { window = pos 40 })
    ≡ record stream { window = pos 40 }
unfolding prepend_rst_stream_data may_prepend
window_too_small = refl

-- The handler waits for the rest of a frame.
partly_sent :
    rst_stream_data_handler slow (record { bytes = 0 ∷ []; size = 41; fin = true }) stream
    ≡ (again, stream)
unfolding rst_stream_data_handler
partly_sent = refl

-- Where nothing waits, the write event is posted.
abbrev sent : Stream
sent =
    (rst_stream_data_handler slow (record { bytes = []; size = 41; fin = true })
      (record stream { queued = 1 })).1

handler_posts :
    (sent.posted ≡ 1) × (sent.queued ≡ 0) × (sent.c_sent ≡ 50) × (sent.out_closed ≡ true)
unfolding rst_stream_data_handler count_frame post_write
handler_posts = (refl, refl, refl, refl)

prepend_rst_stream_data-IsPrepended_example :
    (result ≡ stream) ⊎ IsPrepended slow true stream result
prepend_rst_stream_data-IsPrepended_example =
    prepend_rst_stream_data-IsPrepended slow true stream slow-IsHttp2
