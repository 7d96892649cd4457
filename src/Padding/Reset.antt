-- ===== src/Padding/Reset.antt =====
-- The DATA frame that src/padding.c puts in front of a reset of an HTTP/2 stream.
pub mod Wire
pub mod Queue
mod Tests
use ngx_http_tunnel_module.Common.{
  ℕ, suc, ◌+◌, ◌-◌, ◌%◌, ◌^◌, Bool, true, false, not, ◌&&◌, ◌||◌, Option, none, some, List, [], ◌∷◌,
  ◌++◌, length, replicate, is_nil, ltb, ◌==◌, if◌then◌else◌, bit_or,
}
use ngx_http_tunnel_module.Rc.{Rc, ok, error, again}

-- RST_STREAM_DATA_MIN and RST_STREAM_DATA_MAX
abbrev pub rst_stream_data_min : ℕ
rst_stream_data_min = 48

abbrev pub rst_stream_data_max : ℕ
rst_stream_data_max = 72

-- `stream->send_window`, which may be negative.
pub data Window : Type 0 where
  pos negsuc : ℕ → Window

-- `ngx_http_v2_out_frame_t`, with the bytes of its buffer that are not sent.
pub record OutFrame : Type 0 where
  pub bytes : List ℕ
  pub size : ℕ
  pub fin : Bool

-- What the two functions read or write of the request and its connection, of the stream, and of the
-- HTTP/2 connection. `c_buffered` is NGX_HTTP_V2_BUFFERED of `r->connection->buffered`.
pub record Stream : Type 0 where
  pub is_http2 : Bool
  pub has_stream : Bool
  pub header_sent : Bool
  pub out_closed : Bool
  pub rst_sent : Bool
  pub connection_error : Bool
  pub connection_window : ℕ
  pub window : Window
  pub id : ℕ
  pub queued : ℕ
  pub waiting : Bool
  pub blocked : Bool
  pub free_frames : ℕ
  pub queue : List OutFrame
  pub h2c_buffered : Bool
  pub total_bytes : ℕ
  pub payload_bytes : ℕ
  pub c_sent : ℕ
  pub c_error : Bool
  pub c_buffered : Bool
  pub header_size : ℕ
  pub write_active : Bool
  pub write_ready : Bool
  pub write_delayed : Bool
  pub posted : ℕ

-- The constants and calls of nginx's HTTP/2. The flags are whether the three allocations succeed.
pub record Http2 : Type 0 where
  pub frame_header_size : ℕ
  pub data_frame : ℕ
  pub end_stream_flag : ℕ
  pub padded_flag : ℕ
  pub len_and_type : ℕ → ℕ → List ℕ
  pub sid : ℕ → List ℕ
  pub random : ℕ
  pub frame_room : Bool
  pub link_room : Bool
  pub buf_room : Bool
  pub send_output_queue : Stream → Rc × Stream

-- `stream->send_window < (ssize_t)frame_size`
abbrev pub window_less : Window → ℕ → Bool
window_less (pos n) size = ltb n size
window_less (negsuc n) size = true

abbrev pub window_sub : Window → ℕ → Window
window_sub (pos n) size = if ltb n size then negsuc (size - n - 1) else pos (n - size)
window_sub (negsuc n) size = negsuc (n + size)

abbrev pub total_size : Http2 → ℕ
total_size h2 = rst_stream_data_min + h2.random % (rst_stream_data_max - rst_stream_data_min + 1)

abbrev pub frame_size : Http2 → ℕ
frame_size h2 = total_size h2 - h2.frame_header_size

-- `b`, written up to `b->last`.
unfoldable pub frame_bytes : Http2 → ℕ → ℕ → List ℕ
frame_bytes h2 id size =
    h2.len_and_type size h2.data_frame
    ++ bit_or h2.end_stream_flag h2.padded_flag
      ∷ (h2.sid id ++ (size - 1) % 2 ^ 8 ∷ replicate (size - 1) 0)

-- Up to `stream->queued++`.
unfoldable pub queue_frame : Http2 → Stream → Stream
unfolding frame_bytes
queue_frame h2 s =
    let size = frame_size h2 in
    record s {
      queue = s.queue ++ record { bytes = frame_bytes h2 s.id size; size = size; fin = true } ∷ [];
      connection_window = s.connection_window - size;
      window = window_sub s.window size;
      queued = s.queued + 1;
    }

-- From `if (stream->queued)` on.
unfoldable pub settle : Stream → Stream
settle s =
    if not (s.queued == 0)
    then record s { c_buffered = true; write_active = true; write_ready = false }
    else record s { c_buffered = false }

abbrev pub is_queue_error : Rc → Bool
is_queue_error error = true
is_queue_error _ = false

-- From `stream->blocked = 1` on.
unfoldable pub send_queue : Http2 → Stream → Stream
unfolding settle
send_queue h2 s =
    let (rc, s') = h2.send_output_queue (record s { blocked = true }) in
    settle (record s' { c_error = is_queue_error rc || s'.c_error; blocked = false })

-- The tests in front of the allocations, those of the size and of the windows included; a `padding`
-- of false is NULL.
unfoldable pub may_prepend : Http2 → Bool → Stream → Bool
may_prepend h2 padding s =
    let size = frame_size h2 in
    padding
    && not (not s.is_http2 || not s.has_stream || not s.header_sent)
    && not (s.out_closed || s.rst_sent || s.connection_error)
    && not (ltb size 2 || ltb 255 (size - 1))
    && not (ltb s.connection_window size || window_less s.window size)

unfoldable pub prepend_rst_stream_data : Http2 → Bool → Stream → Stream
unfolding may_prepend queue_frame send_queue
prepend_rst_stream_data h2 padding s =
    if not (may_prepend h2 padding s)
    then s
    else if not h2.frame_room || not h2.link_room || not h2.buf_room
    then s
    else send_queue h2 (queue_frame h2 s)

-- The write event, where nothing of the stream waits.
unfoldable pub post_write : Stream → Stream
post_write s = if s.waiting || s.blocked then s else record s {
  write_active = false;
  write_ready = true;
  posted = if s.c_error || not s.write_delayed then s.posted + 1 else s.posted;
}

-- What the handler counts of a frame that is sent.
unfoldable pub count_frame : Http2 → OutFrame → Stream → Stream
count_frame h2 frame s = record s {
  c_sent = s.c_sent + (h2.frame_header_size + frame.size);
  header_size = s.header_size + h2.frame_header_size;
  total_bytes = s.total_bytes + (h2.frame_header_size + frame.size);
  payload_bytes = s.payload_bytes + frame.size;
  out_closed = frame.fin || s.out_closed;
  free_frames = s.free_frames + 1;
  queued = s.queued - 1;
  c_buffered = if s.queued - 1 == 0 && not s.h2c_buffered then false else s.c_buffered;
}

unfoldable pub rst_stream_data_handler : Http2 → OutFrame → Stream → Rc × Stream
unfolding count_frame post_write
rst_stream_data_handler h2 frame s =
    if not (is_nil frame.bytes) then (again, s) else (ok, post_write (count_frame h2 frame s))
