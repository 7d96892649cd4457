-- ===== src/Padding/Reset/Queue.antt =====
-- The frame in front of a reset (src/padding.c) in the queue, and when it is sent.
use ngx_http_tunnel_module.Common.{
  ℕ, ◌+◌, ◌-◌, ◌≤◌, Bool, true, false, not, ◌||◌, [], ◌∷◌, ◌++◌, length, ltb, ◌==◌, ◌≡◌, refl, sym,
  ap, ◌∙◌, arith, inl, inr, if_cases, ltb_false→le, ◌⊎◌,
}
use mathlib.Core.Path.{subst}
use ngx_http_tunnel_module.Rc.{Rc}
use ngx_http_tunnel_module.Padding.Reset.{
  Window, pos, negsuc, OutFrame, Stream, Http2, window_less, window_sub, frame_size, frame_bytes,
  queue_frame, settle, is_queue_error, send_queue, may_prepend, prepend_rst_stream_data, post_write,
  count_frame, rst_stream_data_handler,
}
use ngx_http_tunnel_module.Padding.Reset.Wire.{
  IsHttp2, IsPaddingOnly, frame_bytes-IsPaddingOnly, length-frame_bytes,
}

-- How the function leaves the stream that nginx's queue left.
pub record IsSettled (rc : Rc) (left s' : Stream) : Type 0 where
  pub queued : s'.queued ≡ left.queued
  pub queue : s'.queue ≡ left.queue
  pub blocked : s'.blocked ≡ false
  pub buffered : s'.c_buffered ≡ not (left.queued == 0)
  pub broken : s'.c_error ≡ is_queue_error rc || left.c_error

-- The stream once nginx has sent the frame and has called the handler.
pub record IsDelivered (h2 : Http2) (padding : Bool) (s : Stream) (frame : OutFrame) (t : Stream)
    : Type 0 where
  pub queued : t.queued ≡ s.queued
  pub closed : t.out_closed ≡ true
  pub total : t.total_bytes ≡ s.total_bytes + length frame.bytes
  pub payload : t.payload_bytes + 9 ≡ s.payload_bytes + length frame.bytes
  pub once : prepend_rst_stream_data h2 padding t ≡ t

-- `sent` is the stream that nginx's queue is called with.
pub record IsPrepended (h2 : Http2) (padding : Bool) (s s' : Stream) : Type 0 where
  pub frame : OutFrame
  pub padding_only : IsPaddingOnly h2 s.id frame.bytes
  pub size : length frame.bytes ≡ 9 + frame.size
  pub window : ℕ
  pub sent : Stream
  pub call : sent ≡ record s {
    queue = s.queue ++ frame ∷ [];
    connection_window = s.connection_window - frame.size;
    window = pos window;
    queued = s.queued + 1;
    blocked = true;
  }
  pub connection_fits : frame.size ≤ s.connection_window
  pub stream_fits : s.window ≡ pos (window + frame.size)
  pub http2 : (s.is_http2 ≡ true) × (s.has_stream ≡ true) × (s.header_sent ≡ true)
  pub writable : (s.out_closed ≡ false) × (s.rst_sent ≡ false) × (s.connection_error ≡ false)
  pub settled : IsSettled (h2.send_output_queue sent).0 (h2.send_output_queue sent).1 s'
  pub delivered :
      IsDelivered h2 padding s frame
        (rst_stream_data_handler h2 (record frame { bytes = [] }) sent).1

settle-IsSettled :
    (rc : Rc) (left t : Stream)
    → t.queued ≡ left.queued
    → t.queue ≡ left.queue
    → t.blocked ≡ false
    → t.c_error ≡ is_queue_error rc || left.c_error
    → IsSettled rc left (settle t)
unfolding settle
settle-IsSettled rc left t q l b c =
    let same = ap (λ n. not (n == 0)) (sym q) in
    if_cases (IsSettled rc left) (not (t.queued == 0)) _ _
      (λ e. record { queued = q; queue = l; blocked = b; buffered = sym (same ∙ e); broken = c })
      (λ e. record { queued = q; queue = l; blocked = b; buffered = sym (same ∙ e); broken = c })

send_queue-IsSettled :
    (h2 : Http2) (s : Stream)
    → let (rc, left) = h2.send_output_queue (record s { blocked = true }) in
      IsSettled rc left (send_queue h2 s)
unfolding send_queue
send_queue-IsSettled h2 s =
    let (rc, left) = h2.send_output_queue (record s { blocked = true }) in
    settle-IsSettled rc left
      (record left { c_error = is_queue_error rc || left.c_error; blocked = false }) refl refl refl
      refl

window_left :
    (w : Window) (n : ℕ)
    → window_less w n ≡ false
    → (m : ℕ) × (window_sub w n ≡ pos m) × (w ≡ pos (m + n))
window_left (pos k) n e = (k - n, rw e refl, ap pos (omega (arith, ltb_false→le k n e)))
window_left (negsuc k) n e = ground arith

may_prepend-passes :
    (h2 : Http2) (padding : Bool) (s : Stream)
    → may_prepend h2 padding s ≡ true
    → ((s.is_http2 ≡ true) × (s.has_stream ≡ true) × (s.header_sent ≡ true))
      × ((s.out_closed ≡ false) × (s.rst_sent ≡ false) × (s.connection_error ≡ false))
      × (ltb s.connection_window (frame_size h2) ≡ false)
      × (window_less s.window (frame_size h2) ≡ false)
unfolding may_prepend
may_prepend-passes h2 padding s e = ground arith

closed-stays :
    (h2 : Http2) (padding : Bool) (s : Stream)
    → s.out_closed ≡ true
    → prepend_rst_stream_data h2 padding s ≡ s
unfolding prepend_rst_stream_data may_prepend
closed-stays h2 padding s e = ground arith

post_write-blocked : (s : Stream) → s.blocked ≡ true → post_write s ≡ s
unfolding post_write
post_write-blocked s e = ground arith

abbrev padding_frame : Http2 → Stream → OutFrame
padding_frame h2 s = record {
  bytes = frame_bytes h2 s.id (frame_size h2);
  size = frame_size h2;
  fin = true;
}

queued_frame-IsDelivered :
    (h2 : Http2)
    → IsHttp2 h2
    → (padding : Bool) (s : Stream)
    → let frame = padding_frame h2 s in
      let sent : Stream = record (queue_frame h2 s) { blocked = true } in
      IsDelivered h2 padding s frame
        (rst_stream_data_handler h2 (record frame { bytes = [] }) sent).1
unfolding rst_stream_data_handler count_frame post_write queue_frame
queued_frame-IsDelivered h2 lawful padding s =
    let size = length-frame_bytes h2 lawful s.id in
    let frame = padding_frame h2 s in
    let sent : Stream = record (queue_frame h2 s) { blocked = true } in
    let counted = count_frame h2 (record frame { bytes = [] }) sent in
    subst (IsDelivered h2 padding s frame) (sym (post_write-blocked counted refl)) (record {
      queued = omega arith;
      closed = refl;
      total = omega (arith, size, lawful.header);
      payload = omega (arith, size);
      once = closed-stays h2 padding counted refl;
    })

queued_frame-IsPrepended :
    (h2 : Http2)
    → IsHttp2 h2
    → (padding : Bool) (s : Stream) → may_prepend h2 padding s ≡ true
    → IsPrepended h2 padding s (send_queue h2 (queue_frame h2 s))
unfolding queue_frame
queued_frame-IsPrepended h2 lawful padding s e =
    let (http2, writable, fits, fits') = may_prepend-passes h2 padding s e in
    let (left, sub, stream) = window_left s.window (frame_size h2) fits' in
    record {
      frame = padding_frame h2 s;
      padding_only = frame_bytes-IsPaddingOnly h2 lawful s.id;
      size = length-frame_bytes h2 lawful s.id;
      window = left;
      sent = record (queue_frame h2 s) { blocked = true };
      call = ap (λ w. record (queue_frame h2 s) { window = w; blocked = true }) sub;
      connection_fits = ltb_false→le s.connection_window (frame_size h2) fits;
      stream_fits = stream;
      http2 = http2;
      writable = writable;
      settled = send_queue-IsSettled h2 (queue_frame h2 s);
      delivered = queued_frame-IsDelivered h2 lawful padding s;
    }

-- What the function does in front of a reset, where nginx's HTTP/2 is that of RFC 9113: it leaves
-- everything as it was, or it has put one DATA frame of padding only into the queue, of 48 to 72
-- bytes with END_STREAM, on a stream that may still send and within both windows; the stream then
-- is marked as buffered exactly if frames of it are queued. Once nginx has sent the frame, the
-- frame is counted in full, the stream is closed for sending and a second call changes nothing.
pub prepend_rst_stream_data-IsPrepended :
    (h2 : Http2) (padding : Bool) (s : Stream)
    → IsHttp2 h2
    → (prepend_rst_stream_data h2 padding s ≡ s)
      ⊎ IsPrepended h2 padding s (prepend_rst_stream_data h2 padding s)
unfolding prepend_rst_stream_data
prepend_rst_stream_data-IsPrepended h2 padding s lawful =
    let P : Stream → Type 0 = λ s'. (s' ≡ s) ⊎ IsPrepended h2 padding s s' in
    if_cases P (not (may_prepend h2 padding s)) _ _ (λ _. inl refl)
      (λ e.
        if_cases P (not h2.frame_room || not h2.link_room || not h2.buf_room) _ _ (λ _. inl refl)
          (λ _. inr (queued_frame-IsPrepended h2 lawful padding s (ground arith))))
