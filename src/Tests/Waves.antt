-- ===== src/Tests/Waves.antt =====
-- A short file in one channel of 16 bits, with a chunk of odd size in front of the format.
use tcpremote_device_control.Base.{
  ◌≡◌, refl, true, [], ◌∷◌, some, Bytes, pos, negsuc, arith, inl, inr, equal_bytes, ◌+ℤ◌,
}
use tcpremote_device_control.DeviceResult.{ok}
use tcpremote_device_control.Wav.{WavInfo, wav_read_header, wav_frame_size}
use tcpremote_device_control.Wav.Reading.{Stream, fread}
use tcpremote_device_control.Wav.Encode.{Chunk, encode}
use tcpremote_device_control.Wav.Header.{wav_read_header-encode}
use tcpremote_device_control.Wav.Samples.{
  wav_read_samples, read_frames, mix_channels, read_sample_as_i16,
}
use tcpremote_device_control.Wav.Samples.Frames.{IsRead, wav_read_samples-IsRead}

abbrev pub mono : WavInfo
mono = record {
  audio_format = 1;
  channels = 1;
  sample_rate = 8000;
  block_align = 2;
  bits_per_sample = 16;
  data_offset = 0;
  data_size = 4;
}

abbrev pub note : Chunk
note = record { id0 = 76; id1 = 73; id2 = 83; id3 = 84; payload = 7 ∷ 8 ∷ 9 ∷ [] }

abbrev pub samples : Bytes
samples = 255 ∷ 255 ∷ 1 ∷ 1 ∷ []

abbrev pub wave : Stream
wave = record { rest = encode mono 52 16000 (note ∷ []) samples; position = 0; seekable = true }

wav_read_header-encode_example :
    wav_read_header 3 wave
    ≡ some (
      ok,
      record mono { data_offset = 56 },
      record { rest = samples; position = 56; seekable = true },
    )
unfolding wav_frame_size equal_bytes
wav_read_header-encode_example =
    wav_read_header-encode mono 52 16000 (note ∷ []) samples 0 refl (omega arith) (omega arith)
      (omega arith) ((refl, refl, omega arith), tt)

wav_read_samples-IsRead_example :
    IsRead 5 2 4
      (wav_read_samples 5 mono 4 (record { rest = samples; position = 56; seekable = true }))
wav_read_samples-IsRead_example =
    wav_read_samples-IsRead 5 mono 4 (record { rest = samples; position = 56; seekable = true })
      (record {
        uncompressed = refl;
        one_or_two = inl refl;
        bits = inr refl;
        rate_pos = omega arith;
        aligned = refl;
      })
      (omega arith) (omega arith)

samples_test :
    (wav_read_samples 5 mono 4 (record { rest = samples; position = 56; seekable = true })).samples
    ≡ negsuc 0 ∷ pos 257 ∷ []
unfolding wav_read_samples read_frames mix_channels read_sample_as_i16 wav_frame_size fread ◌+ℤ◌
samples_test = refl
