-- ===== src/Client/Video.antt =====
-- camera/rtsp_client.c, lines 92 to 169: `video_stream_thread`. Printing, the timing and the counter
-- of frames, which nothing reads, are left out.
pub mod Frames
use car_detect.Prelude.{
  ℕ, zero, suc, ◌+◌, ◌*◌, ◌/◌, ◌%◌, ◌^◌, Option, none, some, Bool, true, false, ◌&&◌, List, [], ◌∷◌,
  Bytes, map,
}
use car_detect.Effect.{Action, pure, spins, call, ◌>>=◌, ◌>>◌}
use car_detect.Os.{Os}
use car_detect.Kcp.{KcpLib, act}
use car_detect.Rtsp.Session.{RtspSession, RtspState, init, ready, playing}
use car_detect.Rtp.Send.{rtp_send_h264}
use car_detect.AnnexB.{NaluView, split_annexb_nalus}
use car_detect.AnnexB.Units.{view_bytes}

-- The camera and the encoder (camera/v4l2.c), and `running`, which the signal handler and `main` set.
-- A frame that cannot be had is `none`, and so is one that cannot be encoded.
pub record Camera (W : Type 0) : Type 0 where
  pub running : W → Bool
  pub frame_bytes : W → ℕ
  pub v4l2_dqbuf : W → Option Bytes × W
  pub v4l2_qbuf : W → W
  pub mjpeg_to_h264 : Bytes → ℕ → W → Option Bytes × W
  pub usleep : ℕ → W → W

abbrev pub default_fps : ℕ
default_fps = 60

-- `nalu_view_t nalus[32]`.
abbrev pub max_nalus : ℕ
max_nalus = 32

unfoldable pub is_playing : RtspState → Bool
is_playing init = false
is_playing ready = false
is_playing playing = true

-- `timestamp += timestamp_increment`, in 32 bits.
unfoldable pub next_timestamp : ℕ → ℕ
next_timestamp timestamp = (timestamp + 90000 / default_fps) % 2 ^ 32

module _ (os : Os) (lib : KcpLib (Os.World os)) where
  open os use {World, malloc}

  abbrev pub Session : Type 0
  Session = RtspSession (KcpLib.Kcb lib)

  -- One `rtp_send_h264` for each view, all with one timestamp.
  pub send_views : ℕ → Session → ℕ → Bytes → List NaluView → Action World Session
  send_views fuel s timestamp buf [] = pure s
  send_views fuel s timestamp buf (v ∷ views) = do
    s' ← rtp_send_h264 os lib fuel s timestamp (view_bytes buf v)
    send_views fuel s' timestamp buf views

  -- The encoded picture of one frame.
  unfoldable pub send_frame : ℕ → Session → ℕ → Bytes → Action World Session
  unfolding send_views
  send_frame fuel s timestamp h264_data =
      send_views fuel s timestamp h264_data (split_annexb_nalus h264_data max_nalus)

  -- An encoder that has nothing yet reports success with no bytes.
  unfoldable pub on_encoded : ℕ → Session → ℕ → Option Bytes → Action World (Session × ℕ)
  unfolding send_frame
  on_encoded fuel s timestamp none = pure (s, timestamp)
  on_encoded fuel s timestamp (some []) = pure (s, timestamp)
  on_encoded fuel s timestamp (some (b ∷ h264_data)) = do
    s' ← send_frame fuel s timestamp (b ∷ h264_data)
    pure (s', next_timestamp timestamp)

  -- One round of the thread's loop.
  unfoldable pub on_frame :
      Camera World → ℕ → Session → ℕ → Option Bytes → Action World (Session × ℕ)
  unfolding on_encoded
  on_frame cam fuel s timestamp none = do act (Camera.usleep cam 10000); pure (s, timestamp)
  on_frame cam fuel s timestamp (some mjpeg_data) = do
    size ← call (λ w. (cam.frame_bytes w, w))
    encoded ← call (Camera.mjpeg_to_h264 cam mjpeg_data size)
    (s', timestamp') ← on_encoded fuel s timestamp encoded
    act (Camera.v4l2_qbuf cam)
    pure (s', timestamp')

  -- `rounds` bounds the frames, `fuel` the calls of write(2) for a packet.
  unfoldable pub video_loop : Camera World → ℕ → ℕ → Session → ℕ → Action World Session
  unfolding is_playing on_frame
  video_loop cam zero fuel s timestamp = spins
  video_loop cam (suc rounds) fuel s timestamp = do
    on ← call (λ w. (cam.running w, w))
    elim (on && is_playing s.state) [
      | false ↦ pure s
      | true ↦ do
        frame ← call cam.v4l2_dqbuf
        (s', timestamp') ← on_frame cam fuel s timestamp frame
        video_loop cam rounds fuel s' timestamp'
    ]

  -- Without its output buffer the thread returns at once.
  unfoldable pub video_stream_thread : Camera World → ℕ → ℕ → Session → Action World Session
  unfolding video_loop
  video_stream_thread cam rounds fuel s = do
    size ← call (λ w. (cam.frame_bytes w, w))
    got ← call (malloc size)
    elim got [ false ↦ pure s | true ↦ video_loop cam rounds fuel s 0 ]
